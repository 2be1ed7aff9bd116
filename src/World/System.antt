-- ===== src/World/System.antt =====
-- The system calls that more than one component makes.
use open_jls_demos.Prelude.{ℕ, ◌∷◌, Bool, List, Option, some, ℤ}
use open_jls_demos.World.{
  ReadResult, WriteResult, AcceptResult, SaveIo, sock_read, sock_write, allocated, file_read,
  dir_read, opened, mapped, closed, unmapped, resolved, socket_made, connected, listening,
  accept_done, stop_tested, saved, Env, M, emit,
}

unfoldable pub sys_read : Env → ℕ → M ReadResult
sys_read env n t = let r = env.read t n in some (r, sock_read n r ∷ t)

unfoldable pub sys_write : Env → List ℕ → M WriteResult
sys_write env bs t = let r = env.write t bs in some (r, sock_write bs r ∷ t)

-- malloc or calloc: whether there is memory for so many bytes
unfoldable pub sys_alloc : Env → ℕ → M Bool
sys_alloc env n t = let b = env.alloc t n in some (b, allocated n b ∷ t)

-- fopen for reading, with all that the file holds
unfoldable pub sys_file : Env → List ℕ → M (Option (List ℕ))
sys_file env path t = let r = env.file t path in some (r, file_read path r ∷ t)

-- opendir with every entry that readdir gives, or scandir before its filter
unfoldable pub sys_dir : Env → List ℕ → M (Option (List (List ℕ)))
sys_dir env path t = let r = env.dir t path in some (r, dir_read path r ∷ t)

unfoldable pub sys_open : Env → List ℕ → M (Option ℕ)
sys_open env path t = let r = env.open_dev t path in some (r, opened path r ∷ t)

-- The address of the mapping, if it is not MAP_FAILED.
unfoldable pub sys_mmap : Env → ℕ → ℕ → M (Option ℕ)
sys_mmap env size fd t = let r = env.mmap t size fd in some (r, mapped size fd r ∷ t)

unfoldable pub sys_close : ℕ → M (Unit {0})
sys_close fd = emit (closed fd)

unfoldable pub sys_munmap : ℕ → ℕ → M (Unit {0})
sys_munmap addr size = emit (unmapped addr size)

unfoldable pub sys_resolve : Env → List ℕ → ℤ → M ℕ
sys_resolve env host port t = let r = env.resolve t host port in some (r, resolved host port r ∷ t)

unfoldable pub sys_socket : Env → M (Option ℕ)
sys_socket env t = let r = env.socket t in some (r, socket_made r ∷ t)

unfoldable pub sys_connect : Env → ℕ → M Bool
sys_connect env fd t = let b = env.connect t fd in some (b, connected fd b ∷ t)

-- bind and listen: whether both go well
unfoldable pub sys_bind_listen : Env → ℕ → ℕ → M Bool
sys_bind_listen env fd port t =
    let b = env.bind_listen t fd port in some (b, listening fd port b ∷ t)

unfoldable pub sys_accept : Env → M AcceptResult
sys_accept env t = let r = env.accept t in some (r, accept_done r ∷ t)

-- The flag that the signal handler sets.
unfoldable pub sys_stop : Env → M Bool
sys_stop env t = let b = env.stop t in some (b, stop_tested b ∷ t)

unfoldable pub sys_save : Env → List ℕ → List ℕ → M SaveIo
sys_save env path bytes t = let r = env.save t path bytes in some (r, saved path bytes r ∷ t)
