-- ===== src/World/Tidy.antt =====
-- Computations that end and leave no descriptor or mapping behind.
use open_jls_demos.Prelude.{
  ℕ, ◌+◌, ◌≡◌, Bool, true, false, List, [], ◌∷◌, Option, none, some, if◌then◌else◌, arith,
}
use open_jls_demos.World.{
  Event, opened, mapped, closed, unmapped, socket_made, accept_done, Trace, M, pure, ◌>>=◌,
}
use open_jls_demos.World.Returns.{Returns, Returns-bind, Returns-map}
use open_jls_demos.World.Keeps.{Upon, Keeps, IsCalm, is_plain}
use open_jls_demos.World.Handles.{
  Handle, Balance, Balance-refl, Balance-trans, descriptor, acquired, released,
}

abbrev pub SameHandles : Trace → Trace → Type 0
SameHandles t u = Balance [] [] t u

pub SameHandles-IsCalm : IsCalm SameHandles
SameHandles-IsCalm = record {
  pre = record { same = Balance-refl; after = Balance-trans };
  plain = λ e h t. record { holds = λ g. plain_handles g e h t };
}
  where
    plain_handles :
        (g : Handle) (e : Event)
        → is_plain e ≡ true
        → (t : Trace)
        → acquired g (e ∷ t) + released g t + 0 ≡ acquired g t + released g (e ∷ t) + 0
    plain_handles g (opened p r) h t = cc
    plain_handles g (mapped n fd r) h t = cc
    plain_handles g (closed fd) h t = cc
    plain_handles g (unmapped a n) h t = cc
    plain_handles g (socket_made r) h t = cc
    plain_handles g (accept_done r) h t = cc
    plain_handles g e h t = omega arith

-- The handle of a descriptor that may be there.
abbrev pub held : Option ℕ → List Handle
held none = []
held (some fd) = descriptor fd ∷ []

-- A computation ends, and what it returns holds `gained`.
pub record Gains {A : Type 0} (gained : A → List Handle) (m : M A) : Type 0 where
  pub ends : (t : Trace) → Returns (m t) (λ a u. Balance (gained a) [] t u)

abbrev pub Tidy : {A : Type 0} → M A → Type 0
Tidy {A} m = Gains (λ (_ : A). []) m

pub Tidy-pure : {A : Type 0} (a : A) → Tidy (pure a)
Tidy-pure a = record { ends = Balance-refl }

pub Gains-bind :
    {A B : Type 0} {g : B → List Handle} {m : M A} {f : A → M B}
    → Tidy m
    → ((a : A) → Gains g (f a))
    → Gains g (m >>= f)
Gains-bind {g} {m} {f} h k = record {
  ends = λ t.
      Returns-bind m f t (λ _ u. Balance [] [] t u) (λ b v. Balance (g b) [] t v) (h.ends t)
        (λ a u p.
          Returns-map (f a u) (λ b v. Balance (g b) [] u v) (λ b v. Balance (g b) [] t v)
            ((k a).ends u) (λ b v q. Balance-trans p q));
}

pub Tidy-if : {A : Type 0} (b : Bool) {m n : M A} → Tidy m → Tidy n → Tidy (if b then m else n)
Tidy-if true h k = h
Tidy-if false h k = k

-- A computation that ends and makes no event on handles.
pub Tidy-of :
    {A : Type 0} {m : M A} (P : Trace → A → Trace → Type 0)
    → ((t : Trace) → Returns (m t) (P t))
    → Keeps SameHandles m
    → Tidy m
Tidy-of {A} {m} P h k = record { ends = λ t. go t (P t) (m t) (h t) (k.runs t) }
  where
    go :
        (t : Trace) (Q : A → Trace → Type 0) (r : Option (A × Trace))
        → Returns r Q
        → Upon r (λ _ u. SameHandles t u)
        → Returns r (λ _ u. SameHandles t u)
    go t Q none h k = h
    go t Q (some (a, u)) h k = k
