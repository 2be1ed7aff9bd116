-- ===== src/Server/Stream/Lengths.antt =====
-- The lengths that `stream_and_reply` reads off the ring.
use open_jls_demos.Prelude.{
  ℕ, zero, suc, ◌+◌, ◌*◌, ◌≤◌, ◌≡◌, inl, inr, refl, not, List, [], length, length-replicate,
  All-replicate, test_bit, ap, ◌∷◌, All, arith,
}
use open_jls_demos.World.{Env, Trace}
use open_jls_demos.World.Laws.{Lawful}
use open_jls_demos.World.Silent.{Quiet-event, Quiet-refl, Grows, Grows-refl, Grows-trans}
use open_jls_demos.World.Polls.{Ends, At, At-pure, At-if, At-bind}
use open_jls_demos.AxiDma.{AxidmaRing, desc_len, eof_bit}
use open_jls_demos.AxiDma.Wait.{desc_status}
use open_jls_demos.Server.Stream.Answer.{TransferBound, Reported}
use open_jls_demos.Server.Stream.{collect_lens}

pub Reported-earlier :
    (env : Env) (off : ℕ) {t u : Trace} (v : Trace) (i : ℕ) (lens : List ℕ)
    → Grows t u
    → Reported env off u v i lens
    → Reported env off t v i lens
Reported-earlier env off v i [] g r = tt
Reported-earlier env off v i (l ∷ ls) g (w, h, more, r) = (w, Grows-trans g h, more, r)

module _ {env : Env} {k : ℕ} (law : Lawful env k) (cap : ℕ) (bound : TransferBound env cap) where
  -- A status word is the one of the moment of the read.
  abbrev StatusOf : ℕ → Trace → ℕ → Trace → Type 0
  StatusOf o t st u = (st ≡ env.status t o) × Grows t u

  status_word-Ends :
      (ring : AxidmaRing) (i : ℕ) → Ends env (StatusOf (ring.off + i * 64)) (desc_status env ring i)
  unfolding desc_status
  status_word-Ends ring i = record {
    ends = λ t. (Quiet-event law.clock t _ (λ u. (refl, refl)), (refl, (_ ∷ [], refl)));
  }

  abbrev pub AreLens : ℕ → ℕ → ℕ → Trace → List ℕ → Trace → Type 0
  AreLens off n i t lens u =
      (length lens ≡ n) × All (λ l. l ≤ cap) lens × Reported env off t u i lens × Grows t u

  pub collect_lens-Ends :
      (ring : AxidmaRing) (n i : ℕ) → Ends env (AreLens ring.off n i) (collect_lens n env ring i)
  unfolding collect_lens
  collect_lens-Ends ring zero i = record {
    ends = λ t. (Quiet-refl t, (refl, tt, tt, Grows-refl t));
  }
  collect_lens-Ends ring (suc n) i = record {
    ends = λ t. (collected (collect_lens-Ends ring n (i + 1)) t).ends (omega arith);
  }
    where
      collected :
          Ends env (AreLens ring.off n (i + 1)) (collect_lens n env ring (i + 1))
          → (t : Trace)
          → At env 0 1 (AreLens ring.off (suc n) i t) (collect_lens (suc n) env ring i) t
      collected rest_of t = At-bind (status_word-Ends ring i) (λ st u (p, g).
          At-if (not (test_bit st eof_bit))
            (λ open_yet. At-pure (
              length-replicate (suc n) 0,
              All-replicate (λ l. l ≤ cap) (suc n) 0 (omega arith),
              (
                t,
                Grows-refl t,
                g,
                inr (ground (arith, open_yet, p), All-replicate (λ l. l ≡ 0) (suc n) 0 refl),
              ),
              g,
            ))
            (λ closed. At-bind rest_of (λ rest v (l, a, r, h). At-pure (
              omega (arith, l),
              (omega (arith, bound t (ring.off + i * 64), ap desc_len p), a),
              (
                t,
                Grows-refl t,
                Grows-trans g h,
                inl (
                  ground (arith, closed, p),
                  ap desc_len p,
                  Reported-earlier env ring.off v (i + 1) rest g r,
                ),
              ),
              Grows-trans g h,
            ))))
