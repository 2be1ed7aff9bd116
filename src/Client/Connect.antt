-- ===== src/Client/Connect.antt =====
-- Software/host/ojls_client.c: `connect_host`.
use open_jls_demos.Prelude.{ℕ, zero, suc, Bool, true, false, List, Option, none, some, ℤ}
use open_jls_demos.World.{Env, M, pure, ◌>>=◌, ◌>>◌}
use open_jls_demos.World.System.{sys_resolve, sys_socket, sys_connect, sys_close}

-- After `connect` on a new socket: the descriptor, or the next address.
unfoldable pub on_connect : ℕ → M (Option ℕ) → Bool → M (Option ℕ)
on_connect fd next true = pure (some fd)
on_connect fd next false = sys_close fd >> next

unfoldable pub on_socket : Env → M (Option ℕ) → Option ℕ → M (Option ℕ)
unfolding on_connect
on_socket env next none = next
on_socket env next (some fd) = sys_connect env fd >>= on_connect fd next

-- The loop over the addresses: `n` are left.
unfoldable pub connect_loop : ℕ → Env → M (Option ℕ)
unfolding on_socket
connect_loop zero env = pure none
connect_loop (suc n) env = sys_socket env >>= on_socket env (connect_loop n env)

-- The descriptor, or `none` for -1. No address is what a failed resolution amounts to.
unfoldable pub connect_host : Env → List ℕ → ℤ → M (Option ℕ)
connect_host env host port = do n ← sys_resolve env host port; connect_loop n env
