-- ===== src/Client/Io.antt =====
-- Software/host/ojls_client.c: the clock, and the loops over `read` and `write` of the client.
pub mod Agree
pub mod Keeps
use open_jls_demos.Prelude.{
  ℕ, zero, suc, ◌+◌, ◌-◌, ◌*◌, ◌/◌, ◌%◌, List, [], ◌∷◌, ◌++◌, none, some, length, drop, ltb,
  if◌then◌else◌, ℤ, pos, negsuc,
}
use open_jls_demos.World.{
  ReadResult, got, eof, read_eintr, read_error, WriteResult, wrote, write_eintr, write_error,
  clock_read, Env, M, pure, ◌>>=◌,
}
use open_jls_demos.World.System.{sys_read, sys_write}

-- CLOCK_MONOTONIC as `tv_sec` and `tv_nsec`.
unfoldable pub now_us : Env → M ℕ
now_us env t =
    let ns = env.clock t in
    some (ns / 1_000_000_000 * 1_000_000 + ns % 1_000_000_000 / 1000, clock_read ns ∷ t)

-- What the loop of `recv_full` makes of one `read`: `buf` holds the `got` bytes read so far.
unfoldable pub on_read : (List ℕ → M (ℤ × List ℕ)) → List ℕ → ReadResult → M (ℤ × List ℕ)
on_read again buf (got bs) = again (buf ++ bs)
on_read again buf eof = pure (negsuc 0, buf)
on_read again buf read_eintr = again buf
on_read again buf read_error = pure (negsuc 0, buf)

unfoldable pub recv_loop : ℕ → Env → ℕ → List ℕ → M (ℤ × List ℕ)
unfolding sys_read on_read
recv_loop zero env len buf = λ t. none
recv_loop (suc fuel) env len buf =
    if ltb (length buf) len
    then sys_read env (len - length buf) >>= on_read (recv_loop fuel env len) buf
    else pure (pos 0, buf)

-- 0 with exactly `len` bytes, -1 otherwise, also for EOF before any byte.
unfoldable pub recv_full : ℕ → Env → ℕ → M (ℤ × List ℕ)
recv_full fuel env len = recv_loop fuel env len []

-- The loop of `send_full`: `bs` is what is still to be sent.
unfoldable pub on_write : (List ℕ → M ℤ) → List ℕ → WriteResult → M ℤ
on_write again bs (wrote n) = again (drop n bs)
on_write again bs write_eintr = again bs
on_write again bs write_error = pure (negsuc 0)

unfoldable pub send_full : ℕ → Env → List ℕ → M ℤ
unfolding sys_write on_write
send_full zero env bs = λ t. none
send_full (suc fuel) env [] = pure (pos 0)
send_full (suc fuel) env (b ∷ bs) =
    sys_write env (b ∷ bs) >>= on_write (send_full fuel env) (b ∷ bs)
