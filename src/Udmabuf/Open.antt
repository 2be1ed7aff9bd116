-- ===== src/Udmabuf/Open.antt =====
-- Software/src/udmabuf.c: finding, opening and closing a u-dma-buf.
pub mod Holds
use open_jls_demos.Prelude.{
  ℕ, zero, suc, ◌-◌, Bool, true, false, not, List, [], ◌∷◌, ◌++◌, Option, none, some, length, take,
  get_or, ltb, leb, ◌==◌, if◌then◌else◌, codes, starts_with, strtoull, u32,
}
use open_jls_demos.World.{Env, M, pure, ◌>>=◌, ◌>>◌}
use open_jls_demos.World.System.{sys_file, sys_dir, sys_open, sys_mmap, sys_close}
use open_jls_demos.Uio.Open.{line_of, unmap, close_fd}

-- `struct udmabuf` from the system's side; `mem` is `none` for NULL or MAP_FAILED.
pub record Handle : Type 0 where
  pub fd : Option ℕ
  pub mem : Option ℕ
  pub size : ℕ
  pub phys : ℕ
  pub name : List ℕ

abbrev pub class_path : List ℕ
class_path = codes "/sys/class/u-dma-buf"

abbrev pub attr_path : List ℕ → List ℕ → List ℕ
attr_path name attr = take 299 (class_path ++ (codes "/" ++ (name ++ (codes "/" ++ attr))))

unfoldable pub sysfs_read_line : Env → List ℕ → ℕ → M (Option (List ℕ))
sysfs_read_line env path len = sys_file env path >>= λ content. pure (line_of len content)

unfoldable pub on_mmap : List ℕ → ℕ → ℕ → ℕ → Option ℕ → M (Option Handle)
on_mmap name phys size fd none = sys_close fd >> pure none
on_mmap name phys size fd (some mem) =
    pure (
      some (record { fd = some fd; mem = some mem; size = size; phys = phys; name = take 63 name }))

unfoldable pub on_open : Env → List ℕ → ℕ → ℕ → Option ℕ → M (Option Handle)
on_open env name phys size none = pure none
on_open env name phys size (some fd) = sys_mmap env size fd >>= on_mmap name phys size fd

-- `size_t` has 32 bits.
unfoldable pub on_size : Env → List ℕ → ℕ → Option (List ℕ) → M (Option Handle)
on_size env name phys none = pure none
on_size env name phys (some attr) =
    sys_open env (take 299 (codes "/dev/" ++ name)) >>= on_open env name phys (u32 (strtoull attr))

unfoldable pub on_phys : Env → List ℕ → Option (List ℕ) → M (Option Handle)
on_phys env name none = pure none
on_phys env name (some attr) =
    sysfs_read_line env (attr_path name (codes "size")) 64 >>= on_size env name (strtoull attr)

-- The open buffer, or `none` for -1, when nothing is left open.
unfoldable pub udmabuf_open : Env → List ℕ → M (Option Handle)
udmabuf_open env name =
    sysfs_read_line env (attr_path name (codes "phys_addr")) 64 >>= on_phys env name

unfoldable pub udmabuf_close : Handle → M (Unit {0})
udmabuf_close b = unmap b.mem b.size >> close_fd b.fd

unfoldable pub name_filter : List ℕ → Bool
name_filter entry = not (starts_with (codes ".") entry)

-- `strcmp(s, t) <= 0`, the order of alphasort in the C locale
abbrev pub str_leb : List ℕ → List ℕ → Bool
str_leb [] t = true
str_leb (c ∷ s) [] = false
str_leb (c ∷ s) (d ∷ t) =
    let rest = str_leb s t in if ltb c d then true else if c == d then rest else false

abbrev pub insert_name : List ℕ → List (List ℕ) → List (List ℕ)
insert_name s [] = s ∷ []
insert_name s (t ∷ ts) = let rest = insert_name s ts in if str_leb s t then s ∷ t ∷ ts else t ∷ rest

-- scandir with `name_filter` and alphasort
unfoldable pub scanned : List (List ℕ) → List (List ℕ)
unfolding name_filter
scanned [] = []
scanned (e ∷ es) = let rest = scanned es in if name_filter e then insert_name e rest else rest

unfoldable pub count_of : Option (List (List ℕ)) → ℕ
count_of none = 0
count_of (some es) = length (scanned es)

unfoldable pub udmabuf_count : Env → M ℕ
udmabuf_count env = sys_dir env class_path >>= λ es. pure (count_of es)

unfoldable pub open_listed : Env → ℕ → Option (List (List ℕ)) → M (Option Handle)
open_listed env index none = pure none
open_listed env index (some es) =
    if ltb index (length (scanned es))
    then udmabuf_open env (get_or (scanned es) index [])
    else pure none

-- For an index that is not negative.
unfoldable pub udmabuf_open_nth : Env → ℕ → M (Option Handle)
udmabuf_open_nth env index = sys_dir env class_path >>= open_listed env index
