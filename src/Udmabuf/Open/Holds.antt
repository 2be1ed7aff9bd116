-- ===== src/Udmabuf/Open/Holds.antt =====
-- What an open u-dma-buf holds.
use open_jls_demos.Prelude.{
  ℕ, List, [], ◌∷◌, ◌++◌, Option, none, some, codes, take, strtoull, u32, arith,
}
use open_jls_demos.World.{Env, Trace, opened, mapped}
use open_jls_demos.World.Returns.{Returns}
use open_jls_demos.World.System.{sys_open, sys_mmap, sys_close}
use open_jls_demos.World.Handles.{Handle as SystemHandle, Balance, Balance-refl}
use open_jls_demos.World.Tidy.{Gains, Tidy, Tidy-pure, Gains-bind}
use open_jls_demos.Uio.Open.{line_of}
use open_jls_demos.Uio.Open.Holds.{both, of_option, read_file-Tidy, close_both}
use open_jls_demos.Udmabuf.Open.{
  Handle, attr_path, sysfs_read_line, on_mmap, on_open, on_size, on_phys, udmabuf_open,
  udmabuf_close,
}

abbrev pub udmabuf_handles : Handle → List SystemHandle
udmabuf_handles b = both b.fd b.mem

module _ (env : Env) where
  read_line-Tidy : (path : List ℕ) (len : ℕ) → Tidy (sysfs_read_line env path len)
  unfolding sysfs_read_line
  read_line-Tidy path len = Gains-bind (read_file-Tidy env path) (λ r. Tidy-pure (line_of len r))

  on_size-Gains :
      (name : List ℕ) (phys : ℕ) (r : Option (List ℕ))
      → Gains (of_option udmabuf_handles) (on_size env name phys r)
  unfolding on_size on_open on_mmap sys_open sys_mmap sys_close
  on_size-Gains name phys none = record { ends = Balance-refl }
  on_size-Gains name phys (some attr) = record { ends = λ t. start t (env.open_dev t path) }
    where
      path : List ℕ
      path = take 299 (codes "/dev/" ++ name)

      size : ℕ
      size = u32 (strtoull attr)

      map_it :
          (t : Trace) (fd : ℕ) (r : Option ℕ)
          → Returns
              (on_mmap name phys size fd r (mapped size fd r ∷ opened path (some fd) ∷ t))
              (λ x u. Balance (of_option udmabuf_handles x) [] t u)
      map_it t fd none = record { holds = λ g. omega arith }
      map_it t fd (some a) = record { holds = λ g. omega arith }

      start :
          (t : Trace) (r : Option ℕ)
          → Returns
              (on_open env name phys size r (opened path r ∷ t))
              (λ x u. Balance (of_option udmabuf_handles x) [] t u)
      start t none = record { holds = λ g. omega arith }
      start t (some fd) = map_it t fd (env.mmap (opened path (some fd) ∷ t) size fd)

  pub udmabuf_open-Gains :
      (name : List ℕ) → Gains (of_option udmabuf_handles) (udmabuf_open env name)
  unfolding udmabuf_open on_phys
  udmabuf_open-Gains name = Gains-bind (read_line-Tidy (attr_path name (codes "phys_addr")) 64) go
    where
      go : (r : Option (List ℕ)) → Gains (of_option udmabuf_handles) (on_phys env name r)
      go none = record { ends = Balance-refl }
      go (some attr) =
          Gains-bind (read_line-Tidy (attr_path name (codes "size")) 64)
            (on_size-Gains name (strtoull attr))

pub udmabuf_close-Loses :
    (b : Handle) (t : Trace)
    → Returns (udmabuf_close b t) (λ _ v. Balance [] (udmabuf_handles b) t v)
unfolding udmabuf_close
udmabuf_close-Loses b t = close_both b.fd b.mem b.size t
