-- ===== src/World/Polls.antt =====
-- Loops that poll until a deadline: they end, quietly, with a result of a known form.
use open_jls_demos.Prelude.{
  ℕ, suc, ◌+◌, ◌-◌, ◌≤◌, ◌<◌, ◌≡◌, refl, Bool, true, false, some, if◌then◌else◌, ◌∷◌, arith,
}
use open_jls_demos.World.{Env, Trace, M, pure, ◌>>=◌, clock_read, ClockAdvances}
use open_jls_demos.World.Returns.{Returns, Returns-bind, Returns-map, Returns-if}
use open_jls_demos.World.Silent.{Quiet, Quiet-refl, Quiet-trans, Quiet-event, Silent}

-- The computation ends from every trace, quietly, with a result that has the property; that may
-- speak of the trace before and of the one after.
pub record Ends (env : Env) {A : Type 0} (P : Trace → A → Trace → Type 0) (m : M A) : Type 0 where
  pub ends : (t : Trace) → Returns (m t) (λ a t'. Quiet env t t' × P t a t')

-- From the trace `t` it does so, if the nanoseconds up to `limit` are below `fuel`.
pub record At (env : Env) (limit fuel : ℕ) {A : Type 0} (Q : A → Trace → Type 0) (m : M A)
    (t : Trace) : Type 0 where
  pub ends : limit - env.clock t < fuel → Returns (m t) (λ a t'. Quiet env t t' × Q a t')

pub record Polls (env : Env) (limit fuel : ℕ) {A : Type 0} (Q : A → Trace → Type 0) (m : M A)
    : Type 0 where
  pub at : (t : Trace) → At env limit fuel Q m t

abbrev pub Any : {A : Type 0} → Trace → A → Trace → Type 0
Any t a t' = Unit

module _ {env : Env} where
  pub Ends-Silent :
      {A : Type 0} (P : Trace → A → Trace → Type 0) {m : M A} → Ends env P m → Silent env m
  Ends-Silent P {m} e = record {
    ends = λ t.
        Returns-map (m t) (λ a u. Quiet env t u × P t a u) (λ _ u. Quiet env t u) (e.ends t)
          (λ a u q. q.0);
  }

  pub Silent-Ends : {A : Type 0} {m : M A} → Silent env m → Ends env Any m
  Silent-Ends {m} s = record {
    ends = λ t.
        Returns-map (m t) (λ _ u. Quiet env t u) (λ a u. Quiet env t u × Any t a u) (s.ends t)
          (λ a u q. (q, tt));
  }

  -- A loop with fuel for the whole time up to its limit ends from every trace.
  pub Polls-Ends :
      {A : Type 0} (limit fuel : ℕ) (Q : A → Trace → Type 0) {m : M A}
      → limit < fuel
      → Polls env limit fuel Q m
      → Ends env (λ _. Q) m
  Polls-Ends limit fuel Q h p = record { ends = λ t. (p.at t).ends (omega arith) }

module _ {env : Env} {limit fuel : ℕ} where
  pub At-pure :
      {A : Type 0} {Q : A → Trace → Type 0} {a : A} {t : Trace}
      → Q a t
      → At env limit fuel Q (pure a) t
  At-pure {t} q = record { ends = λ _. (Quiet-refl t, q) }

  pub At-if :
      {A : Type 0} {Q : A → Trace → Type 0} (b : Bool) {m n : M A} {t : Trace}
      → (b ≡ true → At env limit fuel Q m t)
      → (b ≡ false → At env limit fuel Q n t)
      → At env limit fuel Q (if b then m else n) t
  At-if true h k = h refl
  At-if false h k = k refl

  -- The second part starts from where the first ended, and knows the property of its result there.
  pub At-bind :
      {A B : Type 0} {P : Trace → A → Trace → Type 0} {Q : B → Trace → Type 0} {m : M A}
      {f : A → M B} {t : Trace}
      → Ends env P m
      → ((a : A) (u : Trace) → P t a u → At env limit fuel Q (f a) u)
      → At env limit fuel Q (m >>= f) t
  At-bind {P} {Q} {m} {f} {t} e k = record {
    ends = λ h.
        Returns-bind m f t (λ a u. Quiet env t u × P t a u) (λ b v. Quiet env t v × Q b v)
          (e.ends t)
          (λ a u (q, p).
            Returns-map (f a u) (λ b v. Quiet env u v × Q b v) (λ b v. Quiet env t v × Q b v)
              ((k a u p).ends (omega (arith, q.later))) (λ b v (r, z). (Quiet-trans q r, z)));
  }

  pub At-then :
      {A B : Type 0} {Q : B → Trace → Type 0} {m : M A} {f : A → M B} {t : Trace}
      → Silent env m
      → ((a : A) (u : Trace) → At env limit fuel Q (f a) u)
      → At env limit fuel Q (m >>= f) t
  At-then s k = At-bind {P = Any} (Silent-Ends s) (λ a u _. k a u)

-- One round's end: the clock is read; past the deadline the loop stops, otherwise it goes on.
module _ {env : Env} (tick : ClockAdvances env) (limit fuel : ℕ) {A : Type 0}
    (Q : A → Trace → Type 0) (read : ℕ → ℕ) (late : ℕ → Bool) (stop again : M A) where
  pub At-clock :
      (t : Trace)
      → ((ns : ℕ) → late (read ns) ≡ false → ns < limit)
      → ((ns : ℕ) (t : Trace)
          → late (read ns) ≡ true
          → At env limit (suc fuel) Q stop (clock_read ns ∷ t))
      → Polls env limit fuel Q again
      → At env limit
          (suc fuel)
          Q
          ((λ t. some (read (env.clock t), clock_read (env.clock t) ∷ t)) >>= λ now.
            if late now then stop else again)
          t
  At-clock t below halt p = record {
    ends = λ h.
        let ns = env.clock t in
        let u : Trace = clock_read ns ∷ t in
        let q = Quiet-event tick t (clock_read ns) (λ v. (refl, refl)) in
        let step : (x : A) (v : Trace) → Quiet env u v × Q x v → Quiet env t v × Q x v =
          λ x v r. (Quiet-trans q r.0, r.1) in
        Returns-if (late (read ns)) stop again u (λ a v. Quiet env t v × Q a v)
          (λ y.
            Returns-map (stop u) (λ a v. Quiet env u v × Q a v) (λ a v. Quiet env t v × Q a v)
              ((halt ns t y).ends (omega (arith, q.later))) step)
          (λ n.
            Returns-map (again u) (λ a v. Quiet env u v × Q a v) (λ a v. Quiet env t v × Q a v)
              ((p.at u).ends (omega (arith, below ns n, tick t (clock_read ns)))) step);
  }

-- The clock is read first, and the limit of the loop is computed from it.
module _ {env : Env} (tick : ClockAdvances env) (fuel slack : ℕ) (enough : slack < fuel)
    {A : Type 0} where
  pub Ends-deadline :
      (read limit : ℕ → ℕ) (Q : ℕ → A → Trace → Type 0) (body : ℕ → M A)
      → ((ns : ℕ) → limit (read ns) ≤ ns + slack)
      → ((now : ℕ) → Polls env (limit now) fuel (Q now) (body now))
      → Ends env
          (λ t. Q (read (env.clock t)))
          ((λ t. some (read (env.clock t), clock_read (env.clock t) ∷ t)) >>= body)
  Ends-deadline read limit Q body near p = record {
    ends = λ t.
        let ns = env.clock t in
        let u : Trace = clock_read ns ∷ t in
        let q = Quiet-event tick t (clock_read ns) (λ v. (refl, refl)) in
        Returns-map (body (read ns) u) (λ a v. Quiet env u v × Q (read ns) a v)
          (λ a v. Quiet env t v × Q (read ns) a v)
          (((p (read ns)).at u).ends (omega (arith, near ns, q.later)))
          (λ a v (r, z). (Quiet-trans q r, z));
  }
