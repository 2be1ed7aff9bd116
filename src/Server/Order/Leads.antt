-- ===== src/Server/Order/Leads.antt =====
-- From one property of a run to another.
use open_jls_demos.Prelude.{
  ℕ, ◌+◌, ◌&&◌, leb, Option, none, some, ap, ◌≡◌, refl, ◌∙◌, Bool, true, false, ◌∷◌, if◌then◌else◌,
  ℤ, pos, is_zero, is_zero_iff, arith,
}
use open_jls_demos.World.{
  Event, dma, reg_write, desc_stored, mem_read, mem_stored, attr_written, Trace, M, pure, ◌>>=◌,
}
use open_jls_demos.World.Keeps.{Upon, Upon-bind, Upon-map, IsPreorder, IsCalm, Keeps, is_plain}
use open_jls_demos.Server.{or_return}
use open_jls_demos.Server.Order.{
  last_stored, pixels_flushed, descs_flushed, owned_from, Coherent, is_tail,
}

-- Every run that begins with `P` ends with `Q`.
pub record Leads (P Q : Trace → Type 0) {A : Type 0} (m : M A) : Type 0 where
  pub runs : (t : Trace) → P t → Upon (m t) (λ _ u. Q u)

-- Every run that begins with `P` is coherent, and ends with `Q` if its code is 0.
pub record Gives (size : ℕ) (P Q : Trace → Type 0) (m : M ℤ) : Type 0 where
  pub runs : (t : Trace) → P t → Upon (m t) (λ rc u. Coherent size u × (rc ≡ pos 0 → Q u))

abbrev pub Stays : (Trace → Type 0) → Trace → Trace → Type 0
Stays P t u = P t → P u

pub Stays-IsPreorder : (P : Trace → Type 0) → IsPreorder (Stays P)
Stays-IsPreorder P = record { same = λ t p. p; after = λ f g p. g (f p) }

module _ {P Q S : Trace → Type 0} where
  pub Leads-bind :
      {A B : Type 0} {m : M A} {f : A → M B}
      → Leads P Q m
      → ((a : A) → Leads Q S (f a))
      → Leads P S (m >>= f)
  Leads-bind {m} {f} h k = record {
    runs = λ t p. Upon-bind m f t (λ _ u. Q u) (λ _ u. S u) (h.runs t p) (λ a u q. (k a).runs u q);
  }

module _ {P Q : Trace → Type 0} where
  pub Leads-if :
      {A : Type 0} (b : Bool) {m n : M A}
      → Leads P Q m
      → Leads P Q n
      → Leads P Q (if b then m else n)
  Leads-if true h k = h
  Leads-if false h k = k

  pub Leads-pure : {A : Type 0} (a : A) → ((t : Trace) → P t → Q t) → Leads P Q (pure a)
  Leads-pure a h = record { runs = h }

  pub Keeps-Leads :
      {A : Type 0} {m : M A} → ((t : Trace) → P t → Q t) → Keeps (Stays P) m → Leads P Q m
  Keeps-Leads {m} h k = record {
    runs = λ t p. Upon-map (m t) (λ _ u. P t → P u) (λ _ u. Q u) (k.runs t) (λ _ u f. h u (f p));
  }

  pub Leads-Gives :
      {size : ℕ} {m : M ℤ} → ((t : Trace) → Q t → Coherent size t) → Leads P Q m → Gives size P Q m
  Leads-Gives {size} {m} h k = record {
    runs = λ t p.
        Upon-map (m t) (λ _ u. Q u) (λ rc u. Coherent size u × (rc ≡ pos 0 → Q u)) (k.runs t p)
          (λ rc u q. (h u q, λ _. q));
  }

  pub or_return-Leads :
      {size : ℕ} {m rest : M ℤ} (code : ℤ)
      → Gives size P Q m
      → Leads Q (Coherent size) rest
      → Leads P (Coherent size) (or_return m code rest)
  or_return-Leads {size} {m} {rest} code h k = record {
    runs = λ t p.
        Upon-bind m (λ rc. if is_zero rc then rest else pure code) t
          (λ rc u. Coherent size u × (rc ≡ pos 0 → Q u)) (λ _ u. Coherent size u) (h.runs t p)
          (λ rc u (c, q). go (is_zero rc) u c (λ z. q ((is_zero_iff rc).0 z)));
  }
    where
      go :
          (b : Bool) (u : Trace)
          → Coherent size u
          → (b ≡ true → Q u)
          → Upon ((if b then rest else pure code) u) (λ _ v. Coherent size v)
      go true u c q = k.runs u (q refl)
      go false u c q = c

-- Coherent, and in turn: the last payload lies in a range of tx; it is flushed; the descriptors are
-- flushed too; the CPU owns rx from an offset on.
abbrev pub within : ℕ → ℕ → Option (ℕ × ℕ) → Bool
within off len none = false
within off len (some (o, n)) = leb off o && leb (o + n) (off + len)

module _ (size : ℕ) where
  abbrev pub PixelsStored : ℕ → ℕ → Trace → Type 0
  PixelsStored off len t = Coherent size t × (within off len (last_stored t) ≡ true)

  abbrev pub PixelsFlushed : Trace → Type 0
  PixelsFlushed t = Coherent size t × (pixels_flushed t ≡ true)

  abbrev pub AllFlushed : Trace → Type 0
  AllFlushed t = Coherent size t × (pixels_flushed t ≡ true) × (descs_flushed size t ≡ true)

  abbrev pub RxOwned : ℕ → Trace → Type 0
  RxOwned off t = Coherent size t × (owned_from t ≡ some off)

  -- A plain event changes nothing of this.
  Coherent-plain :
      (e : Event) → is_plain e ≡ true → (t : Trace) → Coherent size t → Coherent size (e ∷ t)
  Coherent-plain (mem_read b o n) h t c = cc
  Coherent-plain (reg_write dma i v) h t c =
      let other : is_tail i ≡ false = ground (arith, h) in rw other c
  Coherent-plain e h t c = c

  stored-plain : (e : Event) → is_plain e ≡ true → (t : Trace) → last_stored (e ∷ t) ≡ last_stored t
  stored-plain (mem_stored c o bs) h t = cc
  stored-plain e h t = refl

  pixels-plain :
      (e : Event) → is_plain e ≡ true → (t : Trace) → pixels_flushed (e ∷ t) ≡ pixels_flushed t
  pixels-plain (mem_stored c o bs) h t = cc
  pixels-plain (attr_written c a v io) h t = cc
  pixels-plain e h t = refl

  descs-plain :
      (e : Event)
      → is_plain e ≡ true
      → (t : Trace) → descs_flushed size (e ∷ t) ≡ descs_flushed size t
  descs-plain (desc_stored o d) h t = cc
  descs-plain (attr_written c a v io) h t = cc
  descs-plain e h t = refl

  owned-plain : (e : Event) → is_plain e ≡ true → (t : Trace) → owned_from (e ∷ t) ≡ owned_from t
  owned-plain (attr_written c a v io) h t = cc
  owned-plain (reg_write dma i v) h t =
      let other : is_tail i ≡ false = ground (arith, h) in rw other refl
  owned-plain e h t = refl

  pub Coherent-IsCalm : IsCalm (Stays (Coherent size))
  Coherent-IsCalm = record { pre = Stays-IsPreorder (Coherent size); plain = Coherent-plain }

  pub PixelsStored-IsCalm : (off len : ℕ) → IsCalm (Stays (PixelsStored off len))
  PixelsStored-IsCalm off len = record {
    pre = Stays-IsPreorder (PixelsStored off len);
    plain = λ e h t (c, p). (Coherent-plain e h t c, ap (within off len) (stored-plain e h t) ∙ p);
  }

  pub PixelsFlushed-IsCalm : IsCalm (Stays PixelsFlushed)
  PixelsFlushed-IsCalm = record {
    pre = Stays-IsPreorder PixelsFlushed;
    plain = λ e h t (c, p). (Coherent-plain e h t c, pixels-plain e h t ∙ p);
  }

  pub AllFlushed-IsCalm : IsCalm (Stays AllFlushed)
  AllFlushed-IsCalm = record {
    pre = Stays-IsPreorder AllFlushed;
    plain =
        λ e h t (c, p, d). (Coherent-plain e h t c, pixels-plain e h t ∙ p, descs-plain e h t ∙ d);
  }

  pub RxOwned-IsCalm : (off : ℕ) → IsCalm (Stays (RxOwned off))
  RxOwned-IsCalm off = record {
    pre = Stays-IsPreorder (RxOwned off);
    plain = λ e h t (c, o). (Coherent-plain e h t c, owned-plain e h t ∙ o);
  }
