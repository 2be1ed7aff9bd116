-- ===== src/World/Silent.antt =====
-- Computations that end, and leave the socket alone.
use open_jls_demos.Prelude.{
  List, [], ◌++◌, append_assoc, sym, ap, ◌≤◌, ◌≡◌, refl, ◌∙◌, Bool, true, false, some,
  if◌then◌else◌, ◌∷◌, arith,
}
use open_jls_demos.World.{Env, Event, Trace, M, pure, emit, ◌>>=◌, received, sent, ClockAdvances}
use open_jls_demos.World.Returns.{Returns, Returns-bind, Returns-map}

-- The run `t'` goes on from `t`.
abbrev pub Grows : Trace → Trace → Type 0
Grows t t' = (new : List Event) × (t' ≡ new ++ t)

pub Grows-refl : (t : Trace) → Grows t t
Grows-refl t = ([], refl)

pub Grows-trans : {t u v : Trace} → Grows t u → Grows u v → Grows t v
Grows-trans {t} (a, e) (b, f) = (b ++ a, f ∙ ap (λ x. b ++ x) e ∙ sym (append_assoc b a t))

-- From `t` to `t'` nothing was received or sent, and the clock did not go back.
pub record Quiet (env : Env) (t t' : Trace) : Type 0 where
  pub same_received : received t' ≡ received t
  pub same_sent : sent t' ≡ sent t
  pub later : env.clock t ≤ env.clock t'
  pub grows : Grows t t'

module _ {env : Env} where
  pub Quiet-refl : (t : Trace) → Quiet env t t
  Quiet-refl t = record {
    same_received = refl;
    same_sent = refl;
    later = omega arith;
    grows = Grows-refl t;
  }

  pub Quiet-trans : {t u v : Trace} → Quiet env t u → Quiet env u v → Quiet env t v
  Quiet-trans p q = record {
    same_received = q.same_received ∙ p.same_received;
    same_sent = q.same_sent ∙ p.same_sent;
    later = omega (arith, p.later, q.later);
    grows = Grows-trans p.grows q.grows;
  }

-- The computation has a result from every trace, and is quiet.
pub record Silent (env : Env) {A : Type 0} (m : M A) : Type 0 where
  pub ends : (t : Trace) → Returns (m t) (λ _ t'. Quiet env t t')

module _ {env : Env} where
  pub Silent-pure : {A : Type 0} (a : A) → Silent env (pure a)
  Silent-pure a = record { ends = Quiet-refl }

  pub Silent-if :
      {A : Type 0} (b : Bool) {m n : M A}
      → Silent env m
      → Silent env n
      → Silent env (if b then m else n)
  Silent-if true h k = h
  Silent-if false h k = k

  pub Silent-bind :
      {A B : Type 0} {m : M A} {f : A → M B}
      → Silent env m
      → ((a : A) → Silent env (f a))
      → Silent env (m >>= f)
  Silent-bind {m} {f} h k = record {
    ends = λ t.
        Returns-bind m f t (λ _ u. Quiet env t u) (λ _ v. Quiet env t v) (h.ends t)
          (λ a u q.
            Returns-map (f a u) (λ _ v. Quiet env u v) (λ _ v. Quiet env t v) ((k a).ends u)
              (λ _ v r. Quiet-trans q r));
  }

-- An event that is not on the socket.
abbrev pub Apart : Event → Type 0
Apart e = (t : Trace) → (received (e ∷ t) ≡ received t) × (sent (e ∷ t) ≡ sent t)

module _ {env : Env} (tick : ClockAdvances env) where
  pub Quiet-event : (t : Trace) (e : Event) → Apart e → Quiet env t (e ∷ t)
  Quiet-event t e a = record {
    same_received = (a t).0;
    same_sent = (a t).1;
    later = omega (arith, tick t e);
    grows = (e ∷ [], refl);
  }

  -- A computation that makes one event of this kind.
  pub Silent-event :
      {A : Type 0} (value : Trace → A) (event : Trace → Event)
      → ((t : Trace) → Apart (event t))
      → Silent env (λ t. some (value t, event t ∷ t))
  Silent-event value event a = record { ends = λ t. Quiet-event t (event t) (a t) }

  pub Silent-emit : (e : Event) → Apart e → Silent env (emit e)
  Silent-emit e a = record { ends = λ t. Quiet-event t e a }
