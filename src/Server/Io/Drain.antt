-- ===== src/Server/Io/Drain.antt =====
-- `drain` keeps the request stream in step.
use open_jls_demos.Prelude.{
  ℕ, zero, suc, ◌+◌, ◌-◌, ◌≤◌, ◌<◌, ◌≡◌, ◌⊎◌, refl, sym, ap, ◌∙◌, List, [], ◌++◌, length,
  append_assoc, append-nil, length-append, inl, inr, arith, ℤ, pos, negsuc, ltb, ltb_iff,
  if◌then◌else◌, is_zero, is_zero_iff,
}
use open_jls_demos.World.{pure, Env, Trace, received, sent, ReadLaw, SignalBound}
use open_jls_demos.World.Returns.{Returns, Returns-if, Returns-map, Returns-bind}
use open_jls_demos.Server.Io.{recv_full, drain}
use open_jls_demos.Server.Io.Receive.{Received, recv_full_total}

-- `gone` was read and dropped.
pub record Drained (before out : List ℕ) (len : ℕ) (rc : ℤ) (t : Trace) : Type 0 where
  pub gone : List ℕ
  pub taken : received t ≡ before ++ gone
  pub silent : sent t ≡ out
  pub at_most : length gone ≤ len
  pub all_of_it : rc ≡ pos 0 → length gone ≡ len
  pub codes : (rc ≡ pos 0) ⊎ (rc ≡ negsuc 0)

Drained-more :
    (before out b : List ℕ) (len c : ℕ) (rc : ℤ) (t : Trace)
    → length b ≡ c
    → c ≤ len
    → Drained (before ++ b) out (len - c) rc t
    → Drained before out len rc t
Drained-more before out b len c rc t e h d = record {
  gone = b ++ d.gone;
  taken = d.taken ∙ append_assoc before b d.gone;
  silent = d.silent;
  at_most = rw length-append (omega (arith, d.at_most));
  all_of_it = λ x. rw length-append (omega (arith, d.all_of_it x));
  codes = d.codes;
}

module _ (env : Env) (k : ℕ) (out : List ℕ) (rl : ReadLaw env) (sb : SignalBound env k) where
  drain-Drained :
      (fuel : ℕ) (before : List ℕ) (len : ℕ) (t : Trace)
      → received t ≡ before
      → sent t ≡ out
      → len + k + 1 < fuel
      → Returns (drain fuel env len t) (Drained before out len)
  unfolding drain
  drain-Drained zero before len t e s f = absurd (omega arith)
  drain-Drained (suc fuel) before len t e s f =
      Returns-if (ltb 0 len) _ _ t (Drained before out len)
        (λ more.
          Returns-bind (recv_full fuel env chunk) _ t
            (λ r. Received env (received t) (sent t) chunk r.0 r.1) _
            (recv_full_total env k fuel chunk t rl sb (omega (arith, chunk_bounds)))
            (λ r u h. next (drain-Drained fuel) ((ltb_iff _ _).0 more) r u h))
        (λ full. record {
          gone = [];
          taken = e ∙ sym (append-nil before);
          silent = s;
          at_most = omega arith;
          all_of_it = λ _. ground arith;
          codes = inl refl;
        })
    where
      chunk : ℕ
      chunk = if ltb len 4096 then len else 4096

      chunk_bounds : (chunk ≤ len) × (len ≤ 0 ⊎ 1 ≤ chunk)
      chunk_bounds = ground arith

      next :
          ((before' : List ℕ) (len' : ℕ) (u : Trace)
            → received u ≡ before'
            → sent u ≡ out
            → len' + k + 1 < fuel
            → Returns (drain fuel env len' u) (Drained before' out len'))
          → 0 < len
          → (r : ℤ × List ℕ) (u : Trace) → Received env (received t) (sent t) chunk r.0 r.1 u
          → Returns
              ((if is_zero r.0 then drain fuel env (len - chunk) else pure (negsuc 0)) u)
              (Drained before out len)
      next ih lt (rc, b) u h =
          Returns-if (is_zero rc) _ _ u _
            (λ z.
              let full = h.all_of_it ((is_zero_iff rc).0 z) in
              Returns-map _ _ _
                (ih (before ++ b) (len - chunk) u (h.taken ∙ ap (λ x. x ++ b) e) (h.silent ∙ s)
                  (omega (arith, chunk_bounds)))
                (λ c u'. Drained-more before out b len chunk c u' full chunk_bounds.0))
            (λ n. record {
              gone = b;
              taken = h.taken ∙ ap (λ x. x ++ b) e;
              silent = h.silent ∙ s;
              at_most = omega (arith, chunk_bounds, h.at_most);
              all_of_it = λ x. cc;
              codes = inr refl;
            })

-- Under the law of `read` and a bound on interrupted calls, with fuel above the length and that
-- bound, `drain` returns 0 or -1, takes at most `len` bytes off the stream, exactly `len` for 0,
-- and sends nothing.
pub drain_total :
    (env : Env) (k fuel len : ℕ) (t : Trace)
    → ReadLaw env
    → SignalBound env k
    → len + k + 1 < fuel
    → Returns (drain fuel env len t) (Drained (received t) (sent t) len)
drain_total env k fuel len t rl sb f =
    drain-Drained env k (sent t) rl sb fuel (received t) len t refl refl f
