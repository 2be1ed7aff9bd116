-- ===== src/Server/Main.antt =====
-- Software/src/ojls_server.c: `main`. The signal handler is the flag that `sys_stop` reads.
pub mod CommandLine
pub mod Accepting
pub mod Shutdown
use open_jls_demos.Prelude.{
  ℕ, zero, suc, ◌-◌, ◌%◌, ◌^◌, Bool, true, false, not, List, [], ◌∷◌, Option, none, some,
  if◌then◌else◌, ℤ, pos, negsuc,
}
use open_jls_demos.World.{
  AcceptResult, accepted, accept_eintr, accept_error, Buf, tx, rx, desc, Env, M, pure, ◌>>=◌, ◌>>◌,
}
use open_jls_demos.World.System.{sys_socket, sys_bind_listen, sys_accept, sys_stop, sys_close}
use open_jls_demos.Udmabuf.{Udmabuf}
use open_jls_demos.Server.{Hw}
use open_jls_demos.Server.Open.{Options, OpenHw, whole, hw_open, hw_close}
use open_jls_demos.Server.Serve.{serve_connection}
use CommandLine.{Parsed, leave, run, default_options, parse_options}

-- `(uint16_t)opt.port`
abbrev pub port_of : ℤ → ℕ
port_of (pos n) = n % 2 ^ 16
port_of (negsuc n) = (2 ^ 16 - 1) - n % 2 ^ 16

abbrev no_buffer : Buf → Udmabuf
no_buffer b = record { buf = b; size = 0; phys = 0 }

-- What `serve_connection` gets: in loopback mode nothing reads it.
abbrev pub hw_or_null : Option OpenHw → Hw
hw_or_null (some o) = o.hw
hw_or_null none = record {
  irq_ok = false;
  desc_buf = no_buffer desc;
  tx = whole (no_buffer tx);
  rx = whole (no_buffer rx);
  bitness = 0;
  max_width = 0;
  max_height = 0;
}

-- `serve_connection(fd, opt.loopback ? NULL : &hw, &opt)`. Connections with a negative timeout are
-- not modelled: they have no result.
abbrev pub serve_client : ℕ → ℕ → Env → Options → Option OpenHw → ℤ → M ℤ
serve_client rounds fuel env opt o (pos timeout_ms) =
    serve_connection rounds fuel env opt.loopback (hw_or_null o) timeout_ms
serve_client rounds fuel env opt o (negsuc n) = λ t. none

-- What the accept loop makes of one `accept`. Both results of the connection are dropped.
unfoldable pub on_accept : M ℤ → M (Unit {0}) → AcceptResult → M (Unit {0})
on_accept serve next accept_eintr = next
on_accept serve next accept_error = pure tt
on_accept serve next (accepted fd) = do _ ← serve; sys_close fd; next

-- `while (!g_stop)`: `clients` bounds the rounds.
unfoldable pub accept_loop : ℕ → Env → M ℤ → M (Unit {0})
accept_loop zero env serve = λ t. none
accept_loop (suc clients) env serve = do
  stop ← sys_stop env
  if stop then pure tt else (sys_accept env >>= on_accept serve (accept_loop clients env serve))

abbrev pub close_hw : Option OpenHw → M (Unit {0})
close_hw none = pure tt
close_hw (some o) = hw_close o

-- From the successful `listen` on.
unfoldable pub serve_all : ℕ → ℕ → ℕ → Env → Options → Option OpenHw → ℕ → M ℤ
serve_all clients rounds fuel env opt o listen_fd = do
  accept_loop clients env (serve_client rounds fuel env opt o opt.timeout_ms)
  sys_close listen_fd
  close_hw o
  pure (pos 0)

unfoldable pub on_listen_socket : ℕ → ℕ → ℕ → Env → Options → Option OpenHw → Option ℕ → M ℤ
on_listen_socket clients rounds fuel env opt o none = pure (pos 1)
on_listen_socket clients rounds fuel env opt o (some listen_fd) = do
  ok ← sys_bind_listen env listen_fd (port_of opt.port)
  if not ok then pure (pos 1) else serve_all clients rounds fuel env opt o listen_fd

-- From the opened hardware on, which is `none` in loopback mode.
unfoldable pub listen_and_serve : ℕ → ℕ → ℕ → Env → Options → Option OpenHw → M ℤ
listen_and_serve clients rounds fuel env opt o =
    sys_socket env >>= on_listen_socket clients rounds fuel env opt o

unfoldable pub with_hw : ℕ → ℕ → ℕ → Env → Options → Option OpenHw → M ℤ
with_hw clients rounds fuel env opt none = pure (pos 1)
with_hw clients rounds fuel env opt (some o) = listen_and_serve clients rounds fuel env opt (some o)

unfoldable pub run_server : ℕ → ℕ → ℕ → Env → Parsed → M ℤ
run_server clients rounds fuel env (leave code) = pure code
run_server clients rounds fuel env (run opt) =
    if opt.loopback
    then listen_and_serve clients rounds fuel env opt none
    else (hw_open fuel env opt >>= with_hw clients rounds fuel env opt)

-- `argv` without the name of the program.
unfoldable pub server_main : ℕ → ℕ → ℕ → Env → List (List ℕ) → M ℤ
server_main clients rounds fuel env argv =
    run_server clients rounds fuel env (parse_options default_options argv)
