-- ===== src/Server/Replies/From.antt =====
-- Answers to one request, with all that the run has been since a trace that is kept in view.
use open_jls_demos.Prelude.{
  ℕ, zero, suc, ◌≡◌, refl, sym, inl, List, Option, none, some, ℤ, pos, negsuc, is_zero,
}
use open_jls_demos.World.{Env, Trace, M, pure, ◌>>=◌, received, sent}
use open_jls_demos.World.Returns.{Returns, Returns-exists, Returns-map, Returns-if}
use mathlib.Core.Path.{subst}
use open_jls_demos.World.Silent.{Silent, Quiet, Quiet-trans}
use open_jls_demos.World.Polls.{Ends, Any, Silent-Ends}
use open_jls_demos.AxiDma.{AxidmaRing}
use open_jls_demos.Server.{or_return}
use open_jls_demos.Server.Encode.{built_or_return, with_ring}
use open_jls_demos.Server.Replies.{Reply}

module _ (env : Env) (t₀ : Trace) (Good : Trace → List ℕ → Type 0) where
  abbrev pub From : ℤ → Trace → Type 0
  From rc u = Reply (received t₀) (sent t₀) (Good u) rc u

  -- A quiet step, and what follows from where it ended.
  pub From-bind :
      {A : Type 0} {P : Trace → A → Trace → Type 0} (m : M A) (f : A → M ℤ) {u : Trace}
      → Ends env P m
      → Quiet env t₀ u
      → ((a : A) (v : Trace) → m u ≡ some (a, v) → P u a v → Quiet env t₀ v → Returns (f a v) From)
      → Returns ((m >>= f) u) From
  From-bind {A} {P} m f {u} s q k =
      let (a, v, e, (r, p)) = Returns-exists (m u) (λ a v. Quiet env u v × P u a v) (s.ends u) in
      subst (λ x. Returns (elim x [ none ↦ none | some (a, v) ↦ f a v ]) From) (sym e)
        (k a v e p (Quiet-trans q r))

  pub From-then :
      {A : Type 0} (m : M A) (f : A → M ℤ) {u : Trace}
      → Silent env m
      → Quiet env t₀ u
      → ((a : A) (v : Trace) → m u ≡ some (a, v) → Quiet env t₀ v → Returns (f a v) From)
      → Returns ((m >>= f) u) From
  From-then m f s q k = From-bind {P = Any} m f (Silent-Ends s) q (λ a v e _ r. k a v e r)

  pub From-code : (n : ℕ) {u : Trace} → Quiet env t₀ u → From (pos (suc n)) u
  From-code n q = record { deaf = q.same_received; outcome = inl (n, refl, q.same_sent) }

  pub From-or_return :
      (n : ℕ) (m rest : M ℤ) {u : Trace}
      → Silent env m
      → Quiet env t₀ u
      → ((v : Trace) → Quiet env t₀ v → Returns (rest v) From)
      → Returns (or_return m (pos (suc n)) rest u) From
  From-or_return n m rest s q k = From-then m _ s q (λ rc v e r.
      Returns-if (is_zero rc) rest (pure (pos (suc n))) v From (λ _. k v r) (λ _. From-code n r))

  pub From-with_ring :
      (m : M (ℤ × Option AxidmaRing)) (next : AxidmaRing → M ℤ) {u : Trace}
      → Silent env m
      → Quiet env t₀ u
      → ((ring : AxidmaRing) (v : Trace)
          → m u ≡ some ((pos 0, some ring), v)
          → Quiet env t₀ v
          → Returns (next ring v) From)
      → Returns (with_ring m next u) From
  unfolding built_or_return
  From-with_ring m next {u} s q k = From-then m _ s q by_result
    where
      by_result :
          (x : ℤ × Option AxidmaRing) (v : Trace)
          → m u ≡ some (x, v)
          → Quiet env t₀ v
          → Returns (built_or_return x next v) From
      by_result (pos zero, some ring) v e r = k ring v e r
      by_result (pos zero, none) v e r = From-code 7 r
      by_result (pos (suc n), o) v e r = From-code 7 r
      by_result (negsuc n, o) v e r = From-code 7 r

-- An answer since a trace is one since any trace that quietly leads to it.
pub From-earlier :
    (env : Env) {t u : Trace} (Good : Trace → List ℕ → Type 0) (r : Option (ℤ × Trace))
    → Quiet env t u
    → Returns r (From env u Good)
    → Returns r (From env t Good)
From-earlier env {t} {u} Good r q h = Returns-map r (From env u Good) (From env t Good) h (λ rc v a.
    subst (λ x. Reply x (sent t) (Good v) rc v) q.same_received
      (subst (λ x. Reply (received u) x (Good v) rc v) q.same_sent a))
