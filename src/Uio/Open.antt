-- ===== src/Uio/Open.antt =====
-- Software/src/uio.c: finding, opening and closing a UIO device.
pub mod Find
pub mod Holds
use open_jls_demos.Prelude.{
  ℕ, zero, suc, ◌-◌, Bool, true, false, ◌||◌, ◌&&◌, not, List, [], ◌∷◌, ◌++◌, Option, none, some,
  length, take, drop, ltb, leb, ◌==◌, if◌then◌else◌, codes, starts_with, strstr, strtoul,
}
use open_jls_demos.World.{Env, M, pure, ◌>>=◌, ◌>>◌}
use open_jls_demos.World.System.{sys_file, sys_dir, sys_open, sys_mmap, sys_close, sys_munmap}

-- `struct uio`; the descriptor is `none` for -1, and `regs` for NULL or MAP_FAILED.
pub record Uio : Type 0 where
  pub fd : Option ℕ
  pub regs : Option ℕ
  pub map_size : ℕ
  pub dev : List ℕ
  pub name : List ℕ

-- What `fgets` reads into `n + 1` bytes, as a C string up to the newline.
abbrev pub first_line : ℕ → List ℕ → List ℕ
first_line zero content = []
first_line (suc n) [] = []
first_line (suc n) (c ∷ content) =
    let rest = c ∷ first_line n content in if c == 10 || c == 0 then [] else rest

-- `fgets` fails at the end of the file.
unfoldable pub line_of : ℕ → Option (List ℕ) → Option (List ℕ)
line_of len none = none
line_of len (some []) = none
line_of len (some (c ∷ content)) = some (first_line (len - 1) (c ∷ content))

unfoldable pub sysfs_read_line : Env → List ℕ → ℕ → M (Option (List ℕ))
sysfs_read_line env path len = sys_file env path >>= λ content. pure (line_of len content)

abbrev pub name_path : List ℕ → List ℕ
name_path entry = take 299 (codes "/sys/class/uio/" ++ (entry ++ codes "/name"))

abbrev pub size_path : List ℕ → List ℕ
size_path dev = take 299 (codes "/sys/class/uio/" ++ (drop 5 dev ++ codes "/maps/map0/size"))

-- `sizeof(u->dev)` and `sizeof(u->name)`
abbrev pub dev_len : ℕ
dev_len = 64

abbrev pub name_len : ℕ
name_len = 64

-- Whether the name attribute of an entry is the one looked for, and both texts fit.
unfoldable pub chosen : List ℕ → List ℕ → Option (List ℕ) → Bool
chosen name entry none = false
chosen name entry (some attr) =
    strstr attr name
    && not (leb dev_len (length (codes "/dev/" ++ entry)) || leb name_len (length attr))

abbrev pub text_of : Option (List ℕ) → List ℕ
text_of none = []
text_of (some s) = s

-- The device node and the name of an entry that was chosen.
unfoldable pub found : List ℕ → Option (List ℕ) → Option (List ℕ × List ℕ)
found entry attr = some (codes "/dev/" ++ entry, text_of attr)

-- The loop over the entries of the directory.
unfoldable pub find_loop : Env → List ℕ → List (List ℕ) → M (Option (List ℕ × List ℕ))
find_loop env name [] = pure none
find_loop env name (entry ∷ entries) =
    if starts_with (codes "uio") entry
    then (sysfs_read_line env (name_path entry) 128 >>= λ attr.
        if chosen name entry attr then pure (found entry attr) else find_loop env name entries)
    else find_loop env name entries

unfoldable pub find_in : Env → List ℕ → Option (List (List ℕ)) → M (Option (List ℕ × List ℕ))
find_in env name none = pure none
find_in env name (some entries) = find_loop env name entries

unfoldable pub uio_find : Env → List ℕ → M (Option (List ℕ × List ℕ))
uio_find env name = sys_dir env (codes "/sys/class/uio") >>= find_in env name

-- By path, or by a part of the name.
unfoldable pub locate : Env → List ℕ → M (Option (List ℕ × List ℕ))
locate env name_or_path =
    if starts_with (codes "/dev/") name_or_path
    then pure (some (take (dev_len - 1) name_or_path, take (name_len - 1) (drop 5 name_or_path)))
    else uio_find env name_or_path

unfoldable pub on_mmap : List ℕ → List ℕ → ℕ → ℕ → Option ℕ → M (Option Uio)
on_mmap dev name map_size fd none = sys_close fd >> pure none
on_mmap dev name map_size fd (some regs) =
    pure (
      some (record { fd = some fd; regs = some regs; map_size = map_size; dev = dev; name = name }))

unfoldable pub on_open : Env → List ℕ → List ℕ → ℕ → Option ℕ → M (Option Uio)
on_open env dev name map_size none = pure none
on_open env dev name map_size (some fd) = sys_mmap env map_size fd >>= on_mmap dev name map_size fd

unfoldable pub on_size : Env → List ℕ → List ℕ → Option (List ℕ) → M (Option Uio)
on_size env dev name none = pure none
on_size env dev name (some attr) = sys_open env dev >>= on_open env dev name (strtoul attr)

unfoldable pub on_found : Env → Option (List ℕ × List ℕ) → M (Option Uio)
on_found env none = pure none
on_found env (some (dev, name)) = sysfs_read_line env (size_path dev) 64 >>= on_size env dev name

-- The open device, or `none` for -1, when nothing is left open.
unfoldable pub uio_open : Env → List ℕ → M (Option Uio)
uio_open env name_or_path = locate env name_or_path >>= on_found env

abbrev pub unmap : Option ℕ → ℕ → M (Unit {0})
unmap none size = pure tt
unmap (some addr) size = sys_munmap addr size

abbrev pub close_fd : Option ℕ → M (Unit {0})
close_fd none = pure tt
close_fd (some fd) = sys_close fd

-- The fields are reset afterwards, and nothing reads them then.
unfoldable pub uio_close : Uio → M (Unit {0})
uio_close u = unmap u.regs u.map_size >> close_fd u.fd
