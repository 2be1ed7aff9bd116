-- ===== src/Server/Replies.antt =====
-- Computations that answer one request: nothing, a whole message, or a broken connection.
pub mod From
use open_jls_demos.Prelude.{
  ℕ, suc, ◌+◌, ◌<◌, ◌≡◌, ◌⊎◌, inl, inr, refl, sym, ap, ◌∙◌, List, [], ◌++◌, append_assoc,
  append-nil, length, Bool, true, false, if◌then◌else◌, ℤ, pos, negsuc, is_zero, is_zero_iff,
}
use mathlib.Core.Path.{subst}
use open_jls_demos.World.{Env, Trace, M, pure, ◌>>=◌, received, sent}
use open_jls_demos.World.Returns.{Returns, Returns-bind, Returns-map, Returns-if}
use open_jls_demos.World.Laws.{Lawful}
use open_jls_demos.World.Silent.{Silent, Quiet}
use open_jls_demos.World.Polls.{Ends, Silent-Ends}
use open_jls_demos.Server.{or_return}
use open_jls_demos.Server.Io.{send_full}
use open_jls_demos.Server.Io.Send.{Sent, send_full_total}

-- The code 0 says that a good message went out, and -1 that the socket failed.
pub record Sending (before out : List ℕ) (Good : List ℕ → Type 0) (rc : ℤ) (t : Trace)
    : Type 0 where
  pub deaf : received t ≡ before
  pub outcome : ((msg : List ℕ) × (rc ≡ pos 0) × (sent t ≡ out ++ msg) × Good msg) ⊎ (rc ≡ negsuc 0)

-- A positive code says that nothing went out yet.
pub record Reply (before out : List ℕ) (Good : List ℕ → Type 0) (rc : ℤ) (t : Trace) : Type 0 where
  pub deaf : received t ≡ before
  pub outcome :
      ((n : ℕ) × (rc ≡ pos (suc n)) × (sent t ≡ out))
      ⊎ (((msg : List ℕ) × (rc ≡ pos 0) × (sent t ≡ out ++ msg) × Good msg) ⊎ (rc ≡ negsuc 0))

pub record Sends (env : Env) (Good : List ℕ → Type 0) (m : M ℤ) : Type 0 where
  pub ends : (t : Trace) → Returns (m t) (Sending (received t) (sent t) Good)

pub record Replies (env : Env) (Good : List ℕ → Type 0) (m : M ℤ) : Type 0 where
  pub ends : (t : Trace) → Returns (m t) (Reply (received t) (sent t) Good)

module _ {env : Env} where
  pub Sends-full :
      {k : ℕ} (fuel : ℕ) (bs : List ℕ)
      → Lawful env k
      → length bs + k < fuel
      → Sends env (λ msg. msg ≡ bs) (send_full fuel env bs)
  Sends-full {k} fuel bs law f = record {
    ends = λ t.
        Returns-map (send_full fuel env bs t) (Sent (received t) (sent t) bs)
          (Sending (received t) (sent t) (λ msg. msg ≡ bs))
          (send_full_total env k fuel bs t law.writes law.signals f)
          (λ rc u s. record {
            deaf = s.deaf;
            outcome = elim s.codes [ inl z ↦ inl (bs, z, s.all_of_it z, refl) | inr n ↦ inr n ];
          });
  }

  pub Sends-done : Sends env (λ msg. msg ≡ []) (pure (pos 0))
  Sends-done = record {
    ends = λ t. record { deaf = refl; outcome = inl ([], refl, sym (append-nil (sent t)), refl) };
  }

  pub Sends-map :
      (G H : List ℕ → Type 0) {m : M ℤ}
      → ((msg : List ℕ) → G msg → H msg)
      → Sends env G m
      → Sends env H m
  Sends-map G H {m} g s = record {
    ends = λ t.
        Returns-map (m t) (Sending (received t) (sent t) G) (Sending (received t) (sent t) H)
          (s.ends t)
          (λ rc u r. record {
            deaf = r.deaf;
            outcome = elim r.outcome [
              | inl (msg, z, e, x) ↦ inl (msg, z, e, g msg x)
              | inr n ↦ inr n
            ];
          });
  }

  -- Two messages, one after the other.
  pub Sends-then :
      (G H K : List ℕ → Type 0) {m rest : M ℤ}
      → ((a b : List ℕ) → G a → H b → K (a ++ b))
      → Sends env G m
      → Sends env H rest
      → Sends env K (or_return m (negsuc 0) rest)
  Sends-then G H K {m} {rest} join s r = record {
    ends = λ t.
        Returns-bind m _ t (Sending (received t) (sent t) G) (Sending (received t) (sent t) K)
          (s.ends t) (λ rc u p. step t rc u p.deaf p.outcome);
  }
    where
      second :
          (t u : Trace) (a : List ℕ)
          → received u ≡ received t
          → sent u ≡ sent t ++ a
          → G a
          → (rc : ℤ) (v : Trace) → Sending (received u) (sent u) H rc v
          → Sending (received t) (sent t) K rc v
      second t u a d e g rc v q = record {
        deaf = q.deaf ∙ d;
        outcome = elim q.outcome [
          | inl (b, z, x, h) ↦
              inl (a ++ b, z, x ∙ ap (λ y. y ++ b) e ∙ append_assoc (sent t) a b, join a b g h)
          | inr n ↦ inr n
        ];
      }

      step :
          (t : Trace) (rc : ℤ) (u : Trace)
          → received u ≡ received t
          → ((msg : List ℕ) × (rc ≡ pos 0) × (sent u ≡ sent t ++ msg) × G msg) ⊎ (rc ≡ negsuc 0)
          → Returns
              ((if is_zero rc then rest else pure (negsuc 0)) u)
              (Sending (received t) (sent t) K)
      step t rc u d (inl (a, z, e, g)) =
          Returns-if (is_zero rc) rest (pure (negsuc 0)) u (Sending (received t) (sent t) K)
            (λ _.
              Returns-map (rest u) (Sending (received u) (sent u) H)
                (Sending (received t) (sent t) K) (r.ends u) (second t u a d e g))
            (λ bad. cc ((is_zero_iff rc).1 z))
      step t rc u d (inr n) =
          Returns-if (is_zero rc) rest (pure (negsuc 0)) u (Sending (received t) (sent t) K)
            (λ good. cc ((is_zero_iff rc).0 good)) (λ _. record { deaf = d; outcome = inr refl })

  pub Sends-after :
      {A : Type 0} (P : A → Type 0) (G : List ℕ → Type 0) {m : M A} {f : A → M ℤ}
      → Ends env (λ _ a _. P a) m
      → ((a : A) → P a → Sends env G (f a))
      → Sends env G (m >>= f)
  Sends-after P G {m} {f} s r = record {
    ends = λ t.
        Returns-bind m f t (λ a u. Quiet env t u × P a) (Sending (received t) (sent t) G) (s.ends t)
          (λ a u (q, p).
            subst (λ x. Returns (f a u) (Sending x (sent t) G)) q.same_received
              (subst (λ x. Returns (f a u) (Sending (received u) x G)) q.same_sent
                ((r a p).ends u)));
  }

  pub Sends-failed : {G : List ℕ → Type 0} → Sends env G (pure (negsuc 0))
  Sends-failed = record { ends = λ t. record { deaf = refl; outcome = inr refl } }

  pub Sends-if :
      (G : List ℕ → Type 0) (b : Bool) {m n : M ℤ}
      → Sends env G m
      → Sends env G n
      → Sends env G (if b then m else n)
  Sends-if G true h k = h
  Sends-if G false h k = k

  pub Sends-later :
      {A : Type 0} (G : List ℕ → Type 0) {m : M A} {f : A → M ℤ}
      → Silent env m
      → ((a : A) → Sends env G (f a))
      → Sends env G (m >>= f)
  Sends-later {A} G s r = Sends-after (λ (a : A). Unit {0}) G (Silent-Ends s) (λ a _. r a)

  pub Replies-Sends : (G : List ℕ → Type 0) {m : M ℤ} → Sends env G m → Replies env G m
  Replies-Sends G {m} s = record {
    ends = λ t.
        Returns-map (m t) (Sending (received t) (sent t) G) (Reply (received t) (sent t) G)
          (s.ends t) (λ rc u r. record { deaf = r.deaf; outcome = inr r.outcome });
  }

  pub Replies-code : (G : List ℕ → Type 0) (n : ℕ) → Replies env G (pure (pos (suc n)))
  Replies-code G n = record { ends = λ t. record { deaf = refl; outcome = inl (n, refl, refl) } }

  pub Replies-if :
      (G : List ℕ → Type 0) (b : Bool) {m n : M ℤ}
      → Replies env G m
      → Replies env G n
      → Replies env G (if b then m else n)
  Replies-if G true h k = h
  Replies-if G false h k = k

  pub Replies-after :
      {A : Type 0} (P : A → Type 0) (G : List ℕ → Type 0) {m : M A} {f : A → M ℤ}
      → Ends env (λ _ a _. P a) m
      → ((a : A) → P a → Replies env G (f a))
      → Replies env G (m >>= f)
  Replies-after P G {m} {f} s r = record {
    ends = λ t.
        Returns-bind m f t (λ a u. Quiet env t u × P a) (Reply (received t) (sent t) G) (s.ends t)
          (λ a u (q, p).
            subst (λ x. Returns (f a u) (Reply x (sent t) G)) q.same_received
              (subst (λ x. Returns (f a u) (Reply (received u) x G)) q.same_sent ((r a p).ends u)));
  }

  pub Replies-then :
      {A : Type 0} (G : List ℕ → Type 0) {m : M A} {f : A → M ℤ}
      → Silent env m
      → ((a : A) → Replies env G (f a))
      → Replies env G (m >>= f)
  Replies-then {A} G s r = Replies-after (λ (a : A). Unit {0}) G (Silent-Ends s) (λ a _. r a)

  -- A step of the hardware whose failure is a status for the client.
  pub Replies-or_return :
      (G : List ℕ → Type 0) (n : ℕ) {m rest : M ℤ}
      → Silent env m
      → Replies env G rest
      → Replies env G (or_return m (pos (suc n)) rest)
  Replies-or_return G n s r =
      Replies-then G s (λ rc. Replies-if G (is_zero rc) r (Replies-code G n))
