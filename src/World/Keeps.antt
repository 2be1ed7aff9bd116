-- ===== src/World/Keeps.antt =====
-- Partial correctness: what every run of a computation that ends does to the trace, by a preorder
-- on traces.
use open_jls_demos.Prelude.{
  ◌≡◌, Bool, true, false, ◌∷◌, Option, none, some, not, ◌||◌, ◌==◌, if◌then◌else◌,
}
use mathlib.Core.Path.{subst}
use open_jls_demos.World.Returns.{Returns}
use open_jls_demos.World.{
  Event, reg_write, attr_written, desc_stored, mem_read, mem_stored, opened, mapped, closed,
  unmapped, socket_made, accept_done, saved, dma, Trace, M, pure, emit, ◌>>=◌,
}

abbrev pub Upon : {A : Type 0} → Option (A × Trace) → (A → Trace → Type 0) → Type 0
Upon none P = Unit
Upon (some (a, t)) P = P a t

pub record IsPreorder (R : Trace → Trace → Type 0) : Type 0 where
  pub same : (t : Trace) → R t t
  pub after : {t u v : Trace} → R t u → R u v → R t v

-- Every run of the computation that ends leads from `t` to a `u` with `R t u`.
pub record Keeps (R : Trace → Trace → Type 0) {A : Type 0} (m : M A) : Type 0 where
  pub runs : (t : Trace) → Upon (m t) (λ _ u. R t u)

module _ {A : Type 0} where
  pub Upon-some :
      (r : Option (A × Trace)) (P : A → Trace → Type 0) {a : A} {t : Trace}
      → Upon r P
      → r ≡ some (a, t)
      → P a t
  Upon-some r P h e = subst (λ s. Upon s P) e h

  pub Upon-map :
      (r : Option (A × Trace)) (P Q : A → Trace → Type 0)
      → Upon r P
      → ((a : A) (t : Trace) → P a t → Q a t)
      → Upon r Q
  Upon-map none P Q h k = tt
  Upon-map (some (a, t)) P Q h k = k a t h

  pub Upon-both :
      (r : Option (A × Trace)) (P Q : A → Trace → Type 0)
      → Upon r P
      → Upon r Q
      → Upon r (λ a t. P a t × Q a t)
  Upon-both none P Q h k = tt
  Upon-both (some (a, t)) P Q h k = (h, k)

pub Upon-bind :
    {A B : Type 0} (m : M A) (f : A → M B) (t : Trace) (P : A → Trace → Type 0)
    (Q : B → Trace → Type 0)
    → Upon (m t) P
    → ((a : A) (u : Trace) → P a u → Upon (f a u) Q)
    → Upon ((m >>= f) t) Q
Upon-bind {A} {B} m f t P Q h k = go (m t) h
  where
    go : (r : Option (A × Trace)) → Upon r P → Upon (elim r [ none ↦ none | some (a, u) ↦ f a u ]) Q
    go none h = tt
    go (some (a, u)) h = k a u h

module _ {R : Trace → Trace → Type 0} (pre : IsPreorder R) where
  pub Keeps-pure : {A : Type 0} (a : A) → Keeps R (pure a)
  Keeps-pure a = record { runs = pre.same }

  pub Keeps-stuck : {A : Type 0} → Keeps R {A = A} (λ t. none)
  Keeps-stuck = record { runs = λ t. tt }

  pub Keeps-bind :
      {A B : Type 0} {m : M A} {f : A → M B}
      → Keeps R m
      → ((a : A) → Keeps R (f a))
      → Keeps R (m >>= f)
  Keeps-bind {m} {f} h k = record {
    runs = λ t.
        Upon-bind m f t (λ _ u. R t u) (λ _ v. R t v) (h.runs t)
          (λ a u r.
            Upon-map (f a u) (λ _ v. R u v) (λ _ v. R t v) ((k a).runs u) (λ _ v s. pre.after r s));
  }

module _ {R : Trace → Trace → Type 0} where
  pub Keeps-if :
      {A : Type 0} (b : Bool) {m n : M A} → Keeps R m → Keeps R n → Keeps R (if b then m else n)
  Keeps-if true h k = h
  Keeps-if false h k = k

  -- A computation that makes one event.
  pub Keeps-event :
      {A : Type 0} (value : Trace → A) (event : Trace → Event)
      → ((t : Trace) → R t (event t ∷ t))
      → Keeps R (λ t. some (value t, event t ∷ t))
  Keeps-event value event h = record { runs = h }

-- Registers, clocks, interrupts, the socket and what is only read: all but the tail pointers of the
-- engine, the buffers, and what the run holds or leaves behind.
abbrev pub is_plain : Event → Bool
is_plain (reg_write dma i v) = not (i == 4 || i == 16)
is_plain (attr_written b a v io) = false
is_plain (desc_stored o d) = false
is_plain (mem_read b o n) = false
is_plain (mem_stored b o bs) = false
is_plain (opened p r) = false
is_plain (mapped n fd r) = false
is_plain (closed fd) = false
is_plain (unmapped a n) = false
is_plain (socket_made r) = false
is_plain (accept_done r) = false
is_plain (saved p bytes io) = false
is_plain e = true

-- A preorder that no plain event leaves.
pub record IsCalm (R : Trace → Trace → Type 0) : Type 0 where
  pub pre : IsPreorder R
  pub plain : (e : Event) → is_plain e ≡ true → (t : Trace) → R t (e ∷ t)

module _ {R : Trace → Trace → Type 0} (calm : IsCalm R) where
  pub Keeps-plain :
      {A : Type 0} (value : Trace → A) (event : Trace → Event)
      → ((t : Trace) → is_plain (event t) ≡ true)
      → Keeps R (λ t. some (value t, event t ∷ t))
  Keeps-plain value event h = record { runs = λ t. calm.plain (event t) (h t) t }

  pub Keeps-emit : (e : Event) → is_plain e ≡ true → Keeps R (emit e)
  Keeps-emit e h = record { runs = λ t. calm.plain e h t }

-- Tail pointers, descriptors, sysfs attributes and the buffers: what the engine's work consists of.
abbrev pub is_device : Event → Bool
is_device (reg_write d i v) = true
is_device (attr_written b a v io) = true
is_device (desc_stored o d) = true
is_device (mem_read b o n) = true
is_device (mem_stored b o bs) = true
is_device e = false

-- A preorder that no plain event and none of the engine's work leaves.
pub record IsServing (R : Trace → Trace → Type 0) : Type 0 where
  pub calm : IsCalm R
  pub device : (e : Event) → is_device e ≡ true → (t : Trace) → R t (e ∷ t)

-- A computation that ends, and what every run of it does.
pub Returns-and :
    {A : Type 0} (m : M A) (t : Trace) (P : A → Trace → Type 0) {R : Trace → Trace → Type 0}
    → Returns (m t) P
    → Keeps R m
    → Returns (m t) (λ a u. P a u × R t u)
Returns-and {A} m t P {R} h k = go (m t) h (k.runs t)
  where
    go : (r : _) → Returns r P → Upon r (λ _ u. R t u) → Returns r (λ a u. P a u × R t u)
    go none h k = h
    go (some (a, u)) h k = (h, k)
