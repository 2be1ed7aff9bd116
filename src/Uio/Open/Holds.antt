-- ===== src/Uio/Open/Holds.antt =====
-- What an open UIO device holds.
use open_jls_demos.Prelude.{
  ℕ, List, [], ◌∷◌, Option, none, some, codes, starts_with, strtoul, arith,
}
use open_jls_demos.World.{Env, Trace, ◌>>◌, opened, mapped}
use open_jls_demos.World.Returns.{Returns}
use open_jls_demos.World.System.{sys_file, sys_dir, sys_open, sys_mmap, sys_close, sys_munmap}
use open_jls_demos.World.Handles.{Handle, descriptor, mapping, Balance, Balance-refl}
use open_jls_demos.World.Tidy.{Gains, Tidy, Tidy-pure, Gains-bind, Tidy-if}
use open_jls_demos.Uio.Open.{
  Uio, line_of, sysfs_read_line, name_path, size_path, chosen, found, find_loop, find_in, uio_find,
  locate, on_mmap, on_open, on_size, on_found, uio_open, unmap, close_fd, uio_close,
}

-- The descriptor and the mapping of a device.
abbrev pub both : Option ℕ → Option ℕ → List Handle
both none none = []
both none (some a) = mapping a ∷ []
both (some fd) none = descriptor fd ∷ []
both (some fd) (some a) = descriptor fd ∷ mapping a ∷ []

abbrev pub uio_handles : Uio → List Handle
uio_handles u = both u.fd u.regs

abbrev pub of_option : {A : Type 0} → (A → List Handle) → Option A → List Handle
of_option f none = []
of_option f (some a) = f a

module _ (env : Env) where
  pub read_file-Tidy : (path : List ℕ) → Tidy (sys_file env path)
  unfolding sys_file
  read_file-Tidy path = record { ends = λ t. record { holds = λ g. omega arith } }

  read_line-Tidy : (path : List ℕ) (len : ℕ) → Tidy (sysfs_read_line env path len)
  unfolding sysfs_read_line
  read_line-Tidy path len = Gains-bind (read_file-Tidy path) (λ r. Tidy-pure (line_of len r))

  find_loop-Tidy : (name : List ℕ) (entries : List (List ℕ)) → Tidy (find_loop env name entries)
  unfolding find_loop
  find_loop-Tidy name [] = Tidy-pure none
  find_loop-Tidy name (entry ∷ entries) =
      Tidy-if (starts_with (codes "uio") entry)
        (Gains-bind (read_line-Tidy (name_path entry) 128) (λ attr.
          Tidy-if (chosen name entry attr) (Tidy-pure (found entry attr))
            (find_loop-Tidy name entries)))
        (find_loop-Tidy name entries)

  uio_find-Tidy : (name : List ℕ) → Tidy (uio_find env name)
  unfolding uio_find sys_dir find_in
  uio_find-Tidy name =
      Gains-bind {m = sys_dir env (codes "/sys/class/uio")}
        (record { ends = λ t. record { holds = λ g. omega arith } }) go
    where
      go : (r : Option (List (List ℕ))) → Tidy (find_in env name r)
      go none = Tidy-pure none
      go (some entries) = find_loop-Tidy name entries

  locate-Tidy : (name_or_path : List ℕ) → Tidy (locate env name_or_path)
  unfolding locate
  locate-Tidy name_or_path = Tidy-if _ (Tidy-pure _) (uio_find-Tidy name_or_path)

  on_size-Gains :
      (dev name : List ℕ) (r : Option (List ℕ))
      → Gains (of_option uio_handles) (on_size env dev name r)
  unfolding on_size on_open on_mmap sys_open sys_mmap sys_close
  on_size-Gains dev name none = record { ends = Balance-refl }
  on_size-Gains dev name (some attr) = record { ends = λ t. start t (env.open_dev t dev) }
    where
      map_it :
          (t : Trace) (fd : ℕ) (r : Option ℕ)
          → Returns
              (on_mmap dev name
                (strtoul attr)
                fd
                r
                (mapped (strtoul attr) fd r ∷ opened dev (some fd) ∷ t))
              (λ x u. Balance (of_option uio_handles x) [] t u)
      map_it t fd none = record { holds = λ g. omega arith }
      map_it t fd (some a) = record { holds = λ g. omega arith }

      start :
          (t : Trace) (r : Option ℕ)
          → Returns
              (on_open env dev name (strtoul attr) r (opened dev r ∷ t))
              (λ x u. Balance (of_option uio_handles x) [] t u)
      start t none = record { holds = λ g. omega arith }
      start t (some fd) = map_it t fd (env.mmap (opened dev (some fd) ∷ t) (strtoul attr) fd)

  pub uio_open-Gains :
      (name_or_path : List ℕ) → Gains (of_option uio_handles) (uio_open env name_or_path)
  unfolding uio_open on_found
  uio_open-Gains name_or_path = Gains-bind (locate-Tidy name_or_path) go
    where
      go : (r : Option (List ℕ × List ℕ)) → Gains (of_option uio_handles) (on_found env r)
      go none = record { ends = Balance-refl }
      go (some (dev, name)) =
          Gains-bind (read_line-Tidy (size_path dev) 64) (on_size-Gains dev name)

-- Closing releases a descriptor and a mapping.
pub close_both :
    (fd regs : Option ℕ) (size : ℕ) (t : Trace)
    → Returns ((unmap regs size >> close_fd fd) t) (λ _ u. Balance [] (both fd regs) t u)
unfolding sys_close sys_munmap
close_both none none size t = record { holds = λ g. omega arith }
close_both none (some a) size t = record { holds = λ g. omega arith }
close_both (some fd) none size t = record { holds = λ g. omega arith }
close_both (some fd) (some a) size t = record { holds = λ g. omega arith }

pub uio_close-Loses :
    (u : Uio) (t : Trace) → Returns (uio_close u t) (λ _ v. Balance [] (uio_handles u) t v)
unfolding uio_close
uio_close-Loses u t = close_both u.fd u.regs u.map_size t
