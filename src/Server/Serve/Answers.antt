-- ===== src/Server/Serve/Answers.antt =====
-- Computations that take the rest of a request and answer it, for the rounds of `serve_connection`.
use open_jls_demos.Prelude.{
  ℕ, zero, suc, inl, inr, ◌+◌, ◌<◌, ◌≡◌, ◌⊎◌, refl, sym, ap, ◌∙◌, Bool, true, false, List, [], ◌++◌,
  append_assoc, append-nil, length, if◌then◌else◌, ℤ, pos, negsuc, is_zero, is_zero_iff,
}
use open_jls_demos.World.{Env, Trace, M, pure, ◌>>=◌, received, sent}
use open_jls_demos.World.Returns.{Returns, Returns-bind, Returns-map, Returns-if}
use open_jls_demos.World.Laws.{Lawful}
use open_jls_demos.World.Silent.{Silent, Quiet}
use open_jls_demos.Proto.{OjlsHdr, ojls_hdr_pack}
use open_jls_demos.Server.Io.{recv_full, drain}
use open_jls_demos.Server.Io.Receive.{Received, recv_full_total}
use open_jls_demos.Server.Io.Drain.{Drained, drain_total}
use open_jls_demos.Server.Replies.{Sends, Sending, Replies, Reply}
use open_jls_demos.Server.Encode.{error_hdr, send_error}
use open_jls_demos.Server.Encode.Answer.{send_error-Sends}
use open_jls_demos.Server.Serve.{Round, stop, again, or_stop, finish_request}

-- What was read and what was sent, where the round goes on.
abbrev pub Answered : (List ℕ → List ℕ → Type 0) → List ℕ → List ℕ → Round → Trace → Type 0
Answered G before out (stop rc) t = rc ≡ negsuc 0
Answered G before out (again c) t =
    (taken : List ℕ) × (reply : List ℕ) × (received t ≡ before ++ taken)
    × (sent t ≡ out ++ reply)
    × G taken reply

pub record Answers (env : Env) (G : List ℕ → List ℕ → Type 0) (m : M Round) : Type 0 where
  pub ends : (t : Trace) → Returns (m t) (Answered G (received t) (sent t))

-- After a part that took `gone` and sent `out`, the rest answers from there.
Answered-after :
    (G K : List ℕ → List ℕ → Type 0) (t u : Trace) (gone first : List ℕ)
    → received u ≡ received t ++ gone
    → sent u ≡ sent t ++ first
    → ((a b : List ℕ) → G a b → K (gone ++ a) (first ++ b))
    → (r : Round) (v : Trace) → Answered G (received u) (sent u) r v
    → Answered K (received t) (sent t) r v
Answered-after G K t u gone first e f g (stop rc) v a = a
Answered-after G K t u gone first e f g (again c) v (a, b, x, y, p) = (
  gone ++ a,
  first ++ b,
  x ∙ ap (λ l. l ++ a) e ∙ append_assoc (received t) gone a,
  y ∙ ap (λ l. l ++ b) f ∙ append_assoc (sent t) first b,
  g a b p,
)

module _ {env : Env} where
  pub Answers-stop : {G : List ℕ → List ℕ → Type 0} → Answers env G (pure (stop (negsuc 0)))
  Answers-stop = record { ends = λ t. refl }

  pub Answers-again :
      (G : List ℕ → List ℕ → Type 0) (c : ℕ) → G [] [] → Answers env G (pure (again c))
  Answers-again G c g = record {
    ends = λ t. ([], [], sym (append-nil (received t)), sym (append-nil (sent t)), g);
  }

  pub Answers-map :
      (G H : List ℕ → List ℕ → Type 0) {m : M Round}
      → ((a b : List ℕ) → G a b → H a b)
      → Answers env G m
      → Answers env H m
  Answers-map G H {m} g s = record {
    ends = λ t.
        Returns-map (m t) (Answered G (received t) (sent t)) (Answered H (received t) (sent t))
          (s.ends t) (by_round t);
  }
    where
      by_round :
          (t : Trace) (r : Round) (u : Trace)
          → Answered G (received t) (sent t) r u
          → Answered H (received t) (sent t) r u
      by_round t (stop rc) u a = a
      by_round t (again c) u (a, b, x, y, p) = (a, b, x, y, g a b p)

  pub Answers-if :
      (G : List ℕ → List ℕ → Type 0) (b : Bool) {m n : M Round}
      → (b ≡ true → Answers env G m)
      → (b ≡ false → Answers env G n)
      → Answers env G (if b then m else n)
  Answers-if G true h k = h refl
  Answers-if G false h k = k refl

  pub Answers-later :
      {A : Type 0} (G : List ℕ → List ℕ → Type 0) {m : M A} {f : A → M Round}
      → Silent env m
      → ((a : A) → Answers env G (f a))
      → Answers env G (m >>= f)
  Answers-later G {m} {f} s r = record {
    ends = λ t.
        Returns-bind m f t (λ _ u. Quiet env t u) (Answered G (received t) (sent t)) (s.ends t)
          (λ a u q.
            Returns-map (f a u) (Answered G (received u) (sent u))
              (Answered G (received t) (sent t)) ((r a).ends u)
              (Answered-after G G t u [] [] (q.same_received ∙ sym (append-nil (received t)))
                (q.same_sent ∙ sym (append-nil (sent t))) (λ a b g. g)));
  }

  -- A message that ends the round.
  pub Answers-reply :
      (H : List ℕ → Type 0) (G : List ℕ → List ℕ → Type 0) (c : ℕ) {m : M ℤ}
      → Sends env H m
      → ((b : List ℕ) → H b → G [] b)
      → Answers env G (or_stop m (pure (again c)))
  Answers-reply H G c {m} s g = record {
    ends = λ t.
        Returns-bind m _ t (Sending (received t) (sent t) H) (Answered G (received t) (sent t))
          (s.ends t)
          (λ rc u p. elim p.outcome [
            | inl (msg, z, e, h) ↦
                Returns-if (is_zero rc) _ _ u _
                  (λ _. ([], msg, p.deaf ∙ sym (append-nil (received t)), e, g msg h)) (λ bad. refl)
            | inr n ↦
                Returns-if (is_zero rc) _ _ u _ (λ good. cc ((is_zero_iff rc).0 good)) (λ bad. refl)
          ]);
  }

  -- A message, whatever comes of it, and the end.
  pub Answers-last :
      (H : List ℕ → Type 0) (G : List ℕ → List ℕ → Type 0) {m : M ℤ}
      → Sends env H m
      → Answers env G (m >>= λ _. pure (stop (negsuc 0)))
  Answers-last H G {m} s = record {
    ends = λ t.
        Returns-bind m _ t (Sending (received t) (sent t) H) (Answered G (received t) (sent t))
          (s.ends t) (λ rc u p. refl);
  }

  module _ {k : ℕ} (law : Lawful env k) (fuel : ℕ) where
    -- A rejected payload is dropped first.
    pub Answers-drain :
        (G K : List ℕ → List ℕ → Type 0) (len : ℕ) {rest : M Round}
        → len + k + 1 < fuel
        → Answers env G rest
        → ((gone a b : List ℕ) → length gone ≡ len → G a b → K (gone ++ a) b)
        → Answers env K (or_stop (drain fuel env len) rest)
    Answers-drain G K len {rest} f r g = record {
      ends = λ t.
          Returns-bind (drain fuel env len) _ t (Drained (received t) (sent t) len)
            (Answered K (received t) (sent t))
            (drain_total env k fuel len t law.reads law.signals f)
            (λ rc u d.
              Returns-if (is_zero rc) rest _ u _
                (λ z.
                  Returns-map (rest u) (Answered G (received u) (sent u))
                    (Answered K (received t) (sent t)) (r.ends u)
                    (Answered-after G K t u d.gone [] d.taken (d.silent ∙ sym (append-nil (sent t)))
                      (λ a b. g d.gone a b (d.all_of_it ((is_zero_iff rc).0 z)))))
                (λ bad. refl));
    }

    -- A payload is read first; without it the round stops.
    pub Answers-receive :
        (G : List ℕ → List ℕ → List ℕ → Type 0) (K : List ℕ → List ℕ → Type 0) (len : ℕ)
        (f : ℤ × List ℕ → M Round)
        → len + k < fuel
        → ((bs : List ℕ) → length bs ≡ len → Answers env (G bs) (f (pos 0, bs)))
        → ((rc : ℤ) (bs : List ℕ) (t : Trace)
            → is_zero rc ≡ false
            → Returns (f (rc, bs) t) (λ r _. r ≡ stop (negsuc 0)))
        → ((bs a b : List ℕ) → length bs ≡ len → G bs a b → K (bs ++ a) b)
        → Answers env K (recv_full fuel env len >>= f)
    Answers-receive G K len f enough r bad g = record {
      ends = λ t.
          Returns-bind (recv_full fuel env len) f t
            (λ x u. Received env (received t) (sent t) len x.0 x.1 u)
            (Answered K (received t) (sent t))
            (recv_full_total env k fuel len t law.reads law.signals enough)
            (λ (rc, bs) u d. took t rc bs u d);
    }
      where
        took :
            (t : Trace) (rc : ℤ) (bs : List ℕ) (u : Trace)
            → Received env (received t) (sent t) len rc bs u
            → Returns (f (rc, bs) u) (Answered K (received t) (sent t))
        took t (pos zero) bs u d =
            Returns-map (f (pos 0, bs) u) (Answered (G bs) (received u) (sent u))
              (Answered K (received t) (sent t)) ((r bs (d.all_of_it refl)).ends u)
              (Answered-after (G bs) K t u bs [] d.taken (d.silent ∙ sym (append-nil (sent t)))
                (λ a b. g bs a b (d.all_of_it refl)))
        took t (pos (suc n)) bs u d =
            Returns-map (f (pos (suc n), bs) u) (λ r _. r ≡ stop (negsuc 0)) _
              (bad (pos (suc n)) bs u refl) (λ x v e. rw e refl)
        took t (negsuc n) bs u d =
            Returns-map (f (negsuc n, bs) u) (λ r _. r ≡ stop (negsuc 0)) _
              (bad (negsuc n) bs u refl) (λ x v e. rw e refl)

    -- The reply of the hardware, or the status that it failed with.
    pub Answers-finish :
        (H : List ℕ → Type 0) (G : List ℕ → List ℕ → Type 0) (req : OjlsHdr) (c : ℕ) {m : M ℤ}
        → 20 + k < fuel
        → Replies env H m
        → ((b : List ℕ) → H b → G [] b)
        → ((n : ℕ) → G [] (ojls_hdr_pack (error_hdr req (suc n))))
        → Answers env G (m >>= finish_request fuel env req c)
    unfolding finish_request
    Answers-finish H G req c {m} enough s g e = record {
      ends = λ t.
          Returns-bind m _ t (Reply (received t) (sent t) H) (Answered G (received t) (sent t))
            (s.ends t) (λ rc u p. by_code t rc u p.deaf p.outcome);
    }
      where
        by_code :
            (t : Trace) (rc : ℤ) (u : Trace)
            → received u ≡ received t
            → ((n : ℕ) × (rc ≡ pos (suc n)) × (sent u ≡ sent t))
              ⊎ (((msg : List ℕ) × (rc ≡ pos 0) × (sent u ≡ sent t ++ msg) × H msg)
                  ⊎ (rc ≡ negsuc 0))
            → Returns (finish_request fuel env req c rc u) (Answered G (received t) (sent t))
        by_code t rc u d (inl (n, z, x)) = rw z (
            Returns-map (or_stop (send_error fuel env req (suc n)) (pure (again c)) u)
              (Answered G (received u) (sent u)) (Answered G (received t) (sent t))
              ((Answers-reply (λ b. b ≡ ojls_hdr_pack (error_hdr req (suc n))) G c
                  (send_error-Sends law fuel req (suc n) enough) (λ b f. rw f (e n))).ends
                u)
              (Answered-after G G t u [] [] (d ∙ sym (append-nil (received t)))
                (x ∙ sym (append-nil (sent t))) (λ a b y. y)))
        by_code t rc u d (inr (inl (msg, z, x, h))) =
            rw z ([], msg, d ∙ sym (append-nil (received t)), x, g msg h)
        by_code t rc u d (inr (inr z)) = rw z refl
