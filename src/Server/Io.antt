-- ===== src/Server/Io.antt =====
-- Software/src/ojls_server.c: the loops over `read` and `write`.
pub mod Keeps
pub mod Length
pub mod Receive
pub mod Send
pub mod Drain
use open_jls_demos.Prelude.{
  ℕ, zero, suc, ◌+◌, ◌-◌, ◌≤◌, ◌<◌, ◌≡◌, Bool, true, false, List, [], ◌∷◌, ◌++◌, none, some, length,
  drop, ltb, ◌==◌, if◌then◌else◌, ℤ, pos, negsuc, is_zero,
}
use open_jls_demos.World.{
  ReadResult, got, eof, read_eintr, read_error, WriteResult, wrote, write_eintr, write_error,
  sock_read, sock_write, Env, M, pure, emit, ◌>>=◌, ◌>>◌,
}
use open_jls_demos.World.System.{sys_read, sys_write}

-- What the loop of `recv_full` makes of one `read`: `buf` holds the `got` bytes read so far.
unfoldable pub on_read : (List ℕ → M (ℤ × List ℕ)) → List ℕ → ReadResult → M (ℤ × List ℕ)
on_read again buf (got bs) = again (buf ++ bs)
on_read again buf eof = pure (if length buf == 0 then pos 1 else negsuc 0, buf)
on_read again buf read_eintr = again buf
on_read again buf read_error = pure (negsuc 0, buf)

unfoldable pub recv_loop : ℕ → Env → ℕ → List ℕ → M (ℤ × List ℕ)
unfolding sys_read on_read
recv_loop zero env len buf = λ t. none
recv_loop (suc fuel) env len buf =
    if ltb (length buf) len
    then sys_read env (len - length buf) >>= on_read (recv_loop fuel env len) buf
    else pure (pos 0, buf)

-- 0 with exactly `len` bytes, 1 on EOF before any byte, -1 otherwise.
unfoldable pub recv_full : ℕ → Env → ℕ → M (ℤ × List ℕ)
recv_full fuel env len = recv_loop fuel env len []

-- The loop of `send_full`: `bs` is what is still to be sent.
unfoldable pub on_write : (List ℕ → M ℤ) → List ℕ → WriteResult → M ℤ
on_write again bs (wrote n) = again (drop n bs)
on_write again bs write_eintr = again bs
on_write again bs write_error = pure (negsuc 0)

unfoldable pub send_full : ℕ → Env → List ℕ → M ℤ
unfolding sys_write on_write
send_full zero env bs = λ t. none
send_full (suc fuel) env [] = pure (pos 0)
send_full (suc fuel) env (b ∷ bs) =
    sys_write env (b ∷ bs) >>= on_write (send_full fuel env) (b ∷ bs)

-- `sizeof(scratch)` is 4096.
unfoldable pub drain : ℕ → Env → ℕ → M ℤ
drain zero env len = λ t. none
drain (suc fuel) env len =
    if ltb 0 len
    then (do
      let chunk = if ltb len 4096 then len else 4096
      (rc, _) ← recv_full fuel env chunk
      if is_zero rc then drain fuel env (len - chunk) else pure (negsuc 0))
    else pure (pos 0)
