-- ===== src/Server/Main/Accepting.antt =====
-- Software/src/ojls_server.c: the accept loop of `main` ends, and closes each connection.
use open_jls_demos.Prelude.{
  ℕ, zero, suc, ◌-◌, ◌≤◌, ◌<◌, ◌≡◌, refl, ◌∙◌, Bool, true, false, [], ◌∷◌, ℤ, arith,
}
use native.Mathlib.Decide.{dec_lt}
use open_jls_demos.World.{
  AcceptResult, accepted, accept_eintr, accept_error, accept_done, stop_tested, socket_made, closed,
  opened, mapped, unmapped, Event, Env, M, Trace, pure,
}
use open_jls_demos.World.Returns.{Returns, Returns-bind, Returns-map, Returns-if}
use open_jls_demos.World.System.{sys_accept, sys_stop, sys_close}
use open_jls_demos.World.Handles.{Balance, Balance-refl, Balance-trans}
use open_jls_demos.World.Keeps.{IsServing, is_plain, is_device}
use open_jls_demos.Server.Main.{on_accept, accept_loop}

-- How often the run has called `accept`.
abbrev pub accepts : Trace → ℕ
accepts [] = 0
accepts (accept_done r ∷ t) = suc (accepts t)
accepts (_ ∷ t) = accepts t

-- The signal has come by the time of `limit` calls of `accept`, an interrupted one included.
abbrev pub StopsBy : Env → ℕ → Type 0
StopsBy env limit = (t : Trace) → limit ≤ accepts t → env.stop t ≡ true

-- The same handles are held, and `accept` was not called.
pub record Serving (t u : Trace) : Type 0 where
  pub handles : Balance [] [] t u
  pub accepting : accepts u ≡ accepts t

pub Serving-IsServing : IsServing Serving
Serving-IsServing = record {
  calm = record {
    pre = record {
      same = λ t. record { handles = Balance-refl t; accepting = refl };
      after = λ p q. record {
        handles = Balance-trans p.handles q.handles;
        accepting = q.accepting ∙ p.accepting;
      };
    };
    plain = plain_event;
  };
  device = device_event;
}
  where
    plain_event : (e : Event) → is_plain e ≡ true → (t : Trace) → Serving t (e ∷ t)
    plain_event (opened p r) h t = cc
    plain_event (mapped n fd r) h t = cc
    plain_event (closed fd) h t = cc
    plain_event (unmapped a n) h t = cc
    plain_event (socket_made r) h t = cc
    plain_event (accept_done r) h t = cc
    plain_event e h t = record { handles = record { holds = λ g. omega arith }; accepting = refl }

    device_event : (e : Event) → is_device e ≡ true → (t : Trace) → Serving t (e ∷ t)
    device_event (opened p r) h t = cc
    device_event (mapped n fd r) h t = cc
    device_event (closed fd) h t = cc
    device_event (unmapped a n) h t = cc
    device_event (socket_made r) h t = cc
    device_event (accept_done r) h t = cc
    device_event e h t = record { handles = record { holds = λ g. omega arith }; accepting = refl }

-- One connection ends, without a handle more or less.
abbrev pub Served : M ℤ → Type 0
Served serve = (t : Trace) → Returns (serve t) (λ _ u. Serving t u)

-- A limit that is not reached where the flag is not set.
below : (n limit : ℕ) (flag : Bool) → flag ≡ false → (limit ≤ n → flag ≡ true) → n < limit
below n limit flag unset h = elim (dec_lt n limit) [
  | yes p ↦ p
  | no q ↦ let set : flag ≡ true = h (omega (arith, q)) in cc
]

module _ (env : Env) (limit : ℕ) (stops : StopsBy env limit) (serve : M ℤ)
    (served : Served serve) where
  pub accept_loop-Tidy :
      (clients : ℕ) (t : Trace)
      → limit - accepts t < clients
      → Returns (accept_loop clients env serve t) (λ _ u. Balance [] [] t u)
  unfolding accept_loop on_accept sys_stop sys_accept sys_close
  accept_loop-Tidy zero t f = absurd (omega arith)
  accept_loop-Tidy (suc clients) t f =
      Returns-if (env.stop t) (pure tt) _ (stop_tested (env.stop t) ∷ t) (λ _ u. Balance [] [] t u)
        (λ _. record { holds = λ g. omega arith })
        (λ going.
          round (accept_loop-Tidy clients) (less going) (env.stop t)
            (env.accept (stop_tested (env.stop t) ∷ t)))
    where
      less : env.stop t ≡ false → accepts t < limit
      less going = below (accepts t) limit (env.stop t) going (stops t)

      round :
          ((u : Trace)
            → limit - accepts u < clients
            → Returns (accept_loop clients env serve u) (λ _ v. Balance [] [] u v))
          → accepts t < limit
          → (b : Bool) (r : AcceptResult)
          → Returns
              (on_accept serve
                (accept_loop clients env serve)
                r
                (accept_done r ∷ stop_tested b ∷ t))
              (λ _ u. Balance [] [] t u)
      round ih lt b accept_error = record { holds = λ g. omega arith }
      round ih lt b accept_eintr =
          let u : Trace = accept_done accept_eintr ∷ stop_tested b ∷ t in
          Returns-map (accept_loop clients env serve u) (λ _ v. Balance [] [] u v)
            (λ _ v. Balance [] [] t v) (ih u (omega arith))
            (λ _ v p. record { holds = λ g. omega (arith, p.holds g) })
      round ih lt b (accepted fd) =
          let u : Trace = accept_done (accepted fd) ∷ stop_tested b ∷ t in
          Returns-bind serve _ u (λ _ v. Serving u v) (λ _ w. Balance [] [] t w) (served u)
            (λ _ v p.
              Returns-map (accept_loop clients env serve (closed fd ∷ v))
                (λ _ w. Balance [] [] (closed fd ∷ v) w) (λ _ w. Balance [] [] t w)
                (ih (closed fd ∷ v) (omega (arith, p.accepting)))
                (λ _ w q. record { holds = λ g. omega (arith, p.handles.holds g, q.holds g) }))
