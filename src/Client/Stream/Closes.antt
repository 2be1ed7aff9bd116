-- ===== src/Client/Stream/Closes.antt =====
-- `connect_host` holds one descriptor at most.
use open_jls_demos.Prelude.{
  ℕ, zero, suc, Bool, true, false, List, [], ◌∷◌, Option, none, some, ℤ, arith,
}
use open_jls_demos.World.{Env, Trace, M, pure, ◌>>=◌, connected, closed, socket_made, ◌>>◌}
use open_jls_demos.World.Returns.{Returns, Returns-bind, Returns-map}
use open_jls_demos.World.Handles.{Balance, Balance-refl, Balance-trans}
use open_jls_demos.World.System.{sys_resolve, sys_socket, sys_connect, sys_close}
use open_jls_demos.World.Tidy.{held, Gains, Tidy, Gains-bind}
use open_jls_demos.Client.Connect.{on_connect, on_socket, connect_loop, connect_host}
use open_jls_demos.Client.Stream.{with_connection}

module _ (env : Env) where
  -- After a socket was made or not, from a run that began at `s`.
  on_socket-Gains :
      (next : M (Option ℕ))
      → Gains held next
      → (r : Option ℕ) (s t : Trace) → Balance (held r) [] s t
      → Returns (on_socket env next r t) (λ x u. Balance (held x) [] s u)
  unfolding on_socket on_connect sys_connect sys_close
  on_socket-Gains next h none s t b =
      Returns-map (next t) (λ x u. Balance (held x) [] t u) (λ x u. Balance (held x) [] s u)
        (h.ends t) (λ x u p. Balance-trans b p)
  on_socket-Gains next h (some fd) s t b = go (env.connect t fd)
    where
      go :
          (c : Bool)
          → Returns (on_connect fd next c (connected fd c ∷ t)) (λ x u. Balance (held x) [] s u)
      go true = record { holds = λ g. omega (arith, b.holds g) }
      go false =
          let v : Trace = closed fd ∷ connected fd false ∷ t in
          Returns-map (next v) (λ x u. Balance (held x) [] v u) (λ x u. Balance (held x) [] s u)
            (h.ends v) (λ x u p. record { holds = λ g. omega (arith, b.holds g, p.holds g) })

  connect_loop-Gains : (n : ℕ) → Gains held (connect_loop n env)
  unfolding connect_loop sys_socket
  connect_loop-Gains zero = record { ends = Balance-refl }
  connect_loop-Gains (suc n) = record {
    ends = λ t.
        on_socket-Gains (connect_loop n env) (connect_loop-Gains n) (env.socket t) t
          (socket_made (env.socket t) ∷ t) (made (env.socket t) t);
  }
    where
      made : (r : Option ℕ) (t : Trace) → Balance (held r) [] t (socket_made r ∷ t)
      made none t = record { holds = λ g. omega arith }
      made (some fd) t = record { holds = λ g. omega arith }

  pub connect_host-Gains : (host : List ℕ) (port : ℤ) → Gains held (connect_host env host port)
  unfolding connect_host sys_resolve
  connect_host-Gains host port =
      Gains-bind {m = sys_resolve env host port}
        (record { ends = λ t. record { holds = λ g. omega arith } }) (λ n. connect_loop-Gains n)

  -- A tidy exchange over a connection, which is closed.
  pub with_connection-Tidy :
      (m : M (Option ℕ)) (talk : M ℤ) → Gains held m → Tidy talk → Tidy (m >>= with_connection talk)
  unfolding with_connection sys_close
  with_connection-Tidy m talk h k = record {
    ends = λ t.
        Returns-bind m (with_connection talk) t (λ x u. Balance (held x) [] t u)
          (λ _ v. Balance [] [] t v) (h.ends t) (closing t);
  }
    where
      closing :
          (t : Trace) (x : Option ℕ) (u : Trace)
          → Balance (held x) [] t u
          → Returns (with_connection talk x u) (λ _ v. Balance [] [] t v)
      closing t none u b = b
      closing t (some fd) u b =
          Returns-bind talk (λ rc. sys_close fd >> pure rc) u (λ _ v. Balance [] [] u v)
            (λ _ v. Balance [] [] t v) (k.ends u)
            (λ rc v p. record { holds = λ g. omega (arith, b.holds g, p.holds g) })
