-- ===== src/Server/Io/Keeps.antt =====
-- The socket loops of the server make plain events only.
use open_jls_demos.Prelude.{
  ℕ, zero, suc, refl, List, [], ◌∷◌, ◌++◌, length, drop, ltb, if◌then◌else◌, ℤ, is_zero,
}
use open_jls_demos.World.{
  ReadResult, got, eof, read_eintr, read_error, WriteResult, wrote, write_eintr, write_error, Env,
  M, Trace,
}
use open_jls_demos.World.System.{sys_read, sys_write, sys_alloc}
use open_jls_demos.World.Keeps.{
  Keeps, IsCalm, Keeps-pure, Keeps-stuck, Keeps-bind, Keeps-if, Keeps-plain,
}
use open_jls_demos.Server.Io.{on_read, recv_loop, recv_full, on_write, send_full, drain}

module _ {R : Trace → Trace → Type 0} (calm : IsCalm R) (env : Env) where
  pub sys_alloc-Keeps : (n : ℕ) → Keeps R (sys_alloc env n)
  unfolding sys_alloc
  sys_alloc-Keeps n = Keeps-plain calm _ _ (λ t. refl)

  on_read-Keeps :
      (again : List ℕ → M (ℤ × List ℕ)) (buf : List ℕ)
      → ((b : List ℕ) → Keeps R (again b))
      → (r : ReadResult) → Keeps R (on_read again buf r)
  unfolding on_read
  on_read-Keeps again buf h (got bs) = h (buf ++ bs)
  on_read-Keeps again buf h eof = Keeps-pure calm.pre _
  on_read-Keeps again buf h read_eintr = h buf
  on_read-Keeps again buf h read_error = Keeps-pure calm.pre _

  recv_loop-Keeps : (fuel len : ℕ) (buf : List ℕ) → Keeps R (recv_loop fuel env len buf)
  unfolding recv_loop sys_read
  recv_loop-Keeps zero len buf = Keeps-stuck calm.pre
  recv_loop-Keeps (suc fuel) len buf =
      Keeps-if (ltb (length buf) len)
        (Keeps-bind calm.pre (Keeps-plain calm _ _ (λ t. refl))
          (on_read-Keeps (recv_loop fuel env len) buf (recv_loop-Keeps fuel len)))
        (Keeps-pure calm.pre _)

  pub recv_full-Keeps : (fuel len : ℕ) → Keeps R (recv_full fuel env len)
  unfolding recv_full
  recv_full-Keeps fuel len = recv_loop-Keeps fuel len []

  on_write-Keeps :
      (again : List ℕ → M ℤ) (bs : List ℕ)
      → ((b : List ℕ) → Keeps R (again b))
      → (r : WriteResult) → Keeps R (on_write again bs r)
  unfolding on_write
  on_write-Keeps again bs h (wrote n) = h (drop n bs)
  on_write-Keeps again bs h write_eintr = h bs
  on_write-Keeps again bs h write_error = Keeps-pure calm.pre _

  pub send_full-Keeps : (fuel : ℕ) (bs : List ℕ) → Keeps R (send_full fuel env bs)
  unfolding send_full sys_write
  send_full-Keeps zero bs = Keeps-stuck calm.pre
  send_full-Keeps (suc fuel) [] = Keeps-pure calm.pre _
  send_full-Keeps (suc fuel) (b ∷ bs) =
      Keeps-bind calm.pre (Keeps-plain calm _ _ (λ t. refl))
        (on_write-Keeps (send_full fuel env) (b ∷ bs) (send_full-Keeps fuel))

  pub drain-Keeps : (fuel len : ℕ) → Keeps R (drain fuel env len)
  unfolding drain
  drain-Keeps zero len = Keeps-stuck calm.pre
  drain-Keeps (suc fuel) len =
      Keeps-if (ltb 0 len)
        (Keeps-bind calm.pre (recv_full-Keeps fuel (if ltb len 4096 then len else 4096))
          (λ r. Keeps-if (is_zero r.0) (drain-Keeps fuel _) (Keeps-pure calm.pre _)))
        (Keeps-pure calm.pre _)
