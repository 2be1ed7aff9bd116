-- ===== src/Server/Main/Shutdown.antt =====
-- The server ends after a signal, and closes what it opened.
use open_jls_demos.Prelude.{
  ℕ, ◌^◌, ◌<◌, ◌≡◌, ◌⊎◌, refl, Bool, List, [], ◌∷◌, Option, none, some, inl, inr, ℤ, pos, negsuc,
  arith,
}
use open_jls_demos.World.{socket_made, closed, Env, M, Trace, pure, received, sent}
use open_jls_demos.World.Returns.{Returns, Returns-bind, Returns-map, Returns-if}
use open_jls_demos.World.Laws.{Lawful, Enough}
use open_jls_demos.World.System.{sys_socket, sys_bind_listen, sys_close}
use open_jls_demos.World.Handles.{Handle, descriptor, Balance, Balance-refl}
use open_jls_demos.World.Keeps.{Returns-and}
use open_jls_demos.Server.{Hw}
use open_jls_demos.Server.Open.{Options, OpenHw, hw_open}
use open_jls_demos.Server.Open.Identified.{open_handles, HwOpened, hw_open_total, hw_close-Loses}
use open_jls_demos.Server.Keeps.{
  encode-Keeps, stream-Keeps, serve_hardware-Keeps, serve_connection-Keeps,
}
use open_jls_demos.Server.Stream.Answer.{TransferBound}
use open_jls_demos.Server.Serve.{serve_connection}
use open_jls_demos.Server.Serve.Session.{FinitePeer, ConnectionEnd, serve_connection_total}
use open_jls_demos.Server.Main.{
  hw_or_null, serve_client, accept_loop, close_hw, serve_all, on_listen_socket, listen_and_serve,
  with_hw, run_server, server_main,
}
use open_jls_demos.Server.Main.CommandLine.{leave, run, Parsed, default_options, parse_options}
use open_jls_demos.Server.Main.CommandLine.Exit.{ExitCode, parse-ExitCode}
use open_jls_demos.Server.Main.Accepting.{
  StopsBy, Serving, Serving-IsServing, Served, accept_loop-Tidy,
}

-- 0 after everything was closed, and otherwise 1.
abbrev pub ServerEnd : Trace → ℤ → Trace → Type 0
ServerEnd t rc u = ((rc ≡ pos 0) × Balance [] [] t u) ⊎ (rc ≡ pos 1)

-- The timeout of the command line is not negative, and there is fuel for it.
abbrev pub Timely : ℕ → ℕ → ℤ → Type 0
Timely k fuel (pos timeout_ms) = Enough k timeout_ms fuel
Timely k fuel (negsuc n) = ⊥

Timely-reset : (k fuel : ℕ) (z : ℤ) → Timely k fuel z → 102_000_000 < fuel
Timely-reset k fuel (pos n) h = omega (arith, h)
Timely-reset k fuel (negsuc n) h = absurd h

module _ {env : Env} {k : ℕ} (law : Lawful env k) (cap : ℕ) (bound : TransferBound env cap)
    (short : cap < 2 ^ 32) (total : ℕ) (finite : FinitePeer env total) (limit : ℕ)
    (stops : StopsBy env limit) (clients rounds fuel : ℕ) (many : limit < clients)
    (few : total < rounds) where
  connection-Served :
      (loopback : Bool) (hw : Hw) (timeout_ms : ℕ)
      → Enough k timeout_ms fuel
      → Served (serve_connection rounds fuel env loopback hw timeout_ms)
  connection-Served loopback hw timeout_ms enough t =
      let serving = Serving-IsServing in
      Returns-map (serve_connection rounds fuel env loopback hw timeout_ms t)
        (λ rc u. ConnectionEnd loopback hw cap (received t) (sent t) rc u × Serving t u)
        (λ _ u. Serving t u)
        (Returns-and (serve_connection rounds fuel env loopback hw timeout_ms) t
          (ConnectionEnd loopback hw cap (received t) (sent t))
          (serve_connection_total cap loopback hw timeout_ms fuel total rounds t law bound short
            enough finite (omega arith))
          (serve_connection-Keeps serving.calm env fuel hw timeout_ms
            (serve_hardware-Keeps serving.calm env fuel hw timeout_ms
              (λ off bs u. serving.device _ refl u)
              (λ req. encode-Keeps serving env fuel hw req timeout_ms)
              (λ req count. stream-Keeps serving env fuel hw req count timeout_ms))
            rounds loopback))
        (λ rc u p. p.1)

  client-Served :
      (opt : Options) (o : Option OpenHw) (z : ℤ)
      → Timely k fuel z
      → Served (serve_client rounds fuel env opt o z)
  client-Served opt o (pos n) enough = connection-Served opt.loopback (hw_or_null o) n enough
  client-Served opt o (negsuc n) enough = absurd enough

  -- What the server holds beside its listening socket.
  abbrev hw_handles : Option OpenHw → List Handle
  hw_handles none = []
  hw_handles (some o) = open_handles o

  close_hw-Loses :
      (o : Option OpenHw) (t : Trace)
      → Returns (close_hw o t) (λ _ u. Balance [] (hw_handles o) t u)
  close_hw-Loses none t = Balance-refl t
  close_hw-Loses (some o) t = hw_close-Loses o t

  listen-Ends :
      (opt : Options) (o : Option OpenHw) (s t : Trace)
      → Timely k fuel opt.timeout_ms
      → Balance (hw_handles o) [] s t
      → Returns (listen_and_serve clients rounds fuel env opt o t) (ServerEnd s)
  unfolding listen_and_serve on_listen_socket serve_all sys_socket sys_bind_listen sys_close
  listen-Ends opt o s t enough b = made (env.socket t)
    where
      serve : M ℤ
      serve = serve_client rounds fuel env opt o opt.timeout_ms

      serve_from :
          (listen_fd : ℕ) (u : Trace)
          → Balance (descriptor listen_fd ∷ hw_handles o) [] s u
          → Returns (serve_all clients rounds fuel env opt o listen_fd u) (ServerEnd s)
      serve_from listen_fd u c =
          Returns-bind (accept_loop clients env serve) _ u (λ _ v. Balance [] [] u v) (ServerEnd s)
            (accept_loop-Tidy env limit stops serve (client-Served opt o opt.timeout_ms enough)
              clients u (omega arith))
            (λ _ v p.
              Returns-bind (close_hw o) (λ _. pure (pos 0)) (closed listen_fd ∷ v)
                (λ _ w. Balance [] (hw_handles o) (closed listen_fd ∷ v) w) (ServerEnd s)
                (close_hw-Loses o (closed listen_fd ∷ v))
                (λ _ w q.
                  inl
                    (refl, record { holds = λ g. omega (arith, c.holds g, p.holds g, q.holds g) })))

      made :
          (r : Option ℕ)
          → Returns
              (on_listen_socket clients rounds fuel env opt o r (socket_made r ∷ t))
              (ServerEnd s)
      made none = inr refl
      made (some listen_fd) =
          Returns-if _ (pure (pos 1)) (serve_all clients rounds fuel env opt o listen_fd) _
            (ServerEnd s) (λ _. inr refl)
            (λ _. serve_from listen_fd _ (record { holds = λ g. omega (arith, b.holds g) }))

  run-Ends :
      (parsed : Parsed) (t : Trace)
      → ExitCode parsed
      → ((opt : Options) → parsed ≡ run opt → Timely k fuel opt.timeout_ms)
      → Returns (run_server clients rounds fuel env parsed t) (ServerEnd t)
  unfolding run_server with_hw
  run-Ends (leave code) t (inl z) e = inl (z, Balance-refl t)
  run-Ends (leave code) t (inr z) e = inr z
  run-Ends (run opt) t x e =
      let enough = e opt refl in
      Returns-if opt.loopback _ _ t (ServerEnd t)
        (λ _. listen-Ends opt none t t enough (Balance-refl t))
        (λ _.
          Returns-bind (hw_open fuel env opt) (with_hw clients rounds fuel env opt) t
            (HwOpened fuel env opt t) (ServerEnd t)
            (hw_open_total fuel opt t law (Timely-reset k fuel opt.timeout_ms enough))
            (opened_end enough))
    where
      opened_end :
          Timely k fuel opt.timeout_ms
          → (r : Option OpenHw) (u : Trace) → HwOpened fuel env opt t r u
          → Returns (with_hw clients rounds fuel env opt r u) (ServerEnd t)
      opened_end enough none u h = inr refl
      opened_end enough (some o) u (i, n, b) = listen-Ends opt (some o) t u enough b

-- The server ends in a run in which every system call returns, and in which the signal has come by
-- the time of `limit` calls of `accept`: under the laws, for peers that send at most `total` bytes
-- in all, with a timeout on the command line that is not negative, and with enough fuel for it. An
-- `accept` or a `read` that blocks for ever is outside of this. The server returns 0 after it has
-- closed the descriptor of every connection, the listening socket and all that `hw_open` opened, so
-- that it holds what it held before; otherwise it returns 1.
pub server_stops :
    {env : Env} {k : ℕ} (cap total limit clients rounds fuel : ℕ) (argv : List (List ℕ)) (t : Trace)
    → Lawful env k
    → TransferBound env cap
    → cap < 2 ^ 32
    → FinitePeer env total
    → StopsBy env limit
    → limit < clients
    → total < rounds
    → ((opt : Options)
        → parse_options default_options argv ≡ run opt
        → Timely k fuel opt.timeout_ms)
    → Returns (server_main clients rounds fuel env argv t) (ServerEnd t)
unfolding server_main
server_stops cap total limit clients rounds fuel argv t law bound short finite stops many few
      enough =
    run-Ends law cap bound short total finite limit stops clients rounds fuel many few
      (parse_options default_options argv) t (parse-ExitCode default_options argv) enough
