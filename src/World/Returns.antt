-- ===== src/World/Returns.antt =====
-- Total correctness of a computation: it has a result, and the result has a property.
use open_jls_demos.Prelude.{Bool, true, false, Option, none, some, ◌≡◌, refl, if◌then◌else◌}
use mathlib.Core.Path.{subst}
use open_jls_demos.World.{Trace, M, ◌>>=◌}

abbrev pub Returns : {A : Type 0} → Option (A × Trace) → (A → Trace → Type 0) → Type 0
Returns none P = ⊥
Returns (some (a, t)) P = P a t

module _ {A B : Type 0} where
  pub Returns-bind :
      (m : M A) (f : A → M B) (t : Trace) (P : A → Trace → Type 0) (Q : B → Trace → Type 0)
      → Returns (m t) P
      → ((a : A) (t' : Trace) → P a t' → Returns (f a t') Q)
      → Returns ((m >>= f) t) Q
  Returns-bind m f t P Q h k = go (m t) h
    where
      go :
          (r : Option (A × Trace))
          → Returns r P
          → Returns (elim r [ none ↦ none | some (a, t') ↦ f a t' ]) Q
      go none h = h
      go (some (a, t')) h = k a t' h

module _ {A : Type 0} where
  pub Returns-map :
      (r : Option (A × Trace)) (P Q : A → Trace → Type 0)
      → Returns r P
      → ((a : A) (t' : Trace) → P a t' → Q a t')
      → Returns r Q
  Returns-map none P Q h k = h
  Returns-map (some (a, t)) P Q h k = k a t h

  -- A property of what a computation returns, at the value that it is known to return.
  pub Returns-some :
      (r : Option (A × Trace)) (P : A → Trace → Type 0) {a : A} {t : Trace}
      → Returns r P
      → r ≡ some (a, t)
      → P a t
  Returns-some r P h e = subst (λ s. Returns s P) e h

  pub Returns-exists :
      (r : Option (A × Trace)) (P : A → Trace → Type 0)
      → Returns r P
      → (a : A) × (t : Trace) × (r ≡ some (a, t)) × P a t
  Returns-exists none P h = absurd h
  Returns-exists (some (a, t)) P h = (a, t, refl, h)

  pub Returns-if :
      (b : Bool) (m n : M A) (t : Trace) (P : A → Trace → Type 0)
      → (b ≡ true → Returns (m t) P)
      → (b ≡ false → Returns (n t) P)
      → Returns ((if b then m else n) t) P
  Returns-if true m n t P h k = h refl
  Returns-if false m n t P h k = k refl
