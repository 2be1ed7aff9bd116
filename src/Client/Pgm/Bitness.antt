-- ===== src/Client/Pgm/Bitness.antt =====
-- The bitness that `pgm_load` derives from the largest sample.
use open_jls_demos.Prelude.{
  ℕ, zero, suc, ◌+◌, ◌-◌, ◌^◌, ◌≤◌, ◌<◌, ◌≡◌, refl, some, ltb, true, false, Bool-cases, inl, inr,
  arith,
}
use mathlib.Core.Path.{subst}
use native.Mathlib.Nat.{one-le-pow}
use open_jls_demos.Client.Pgm.{bitness_loop, pgm_bitness}

-- The bitness found: enough for the samples, no more than is needed, and never below 8.
pub record IsBitness (maxval b : ℕ) : Type 0 where
  pub at_least : 8 ≤ b
  pub at_most : b ≤ 16
  pub enough : maxval < 2 ^ b
  pub needed : 8 < b → 2 ^ (b - 1) ≤ maxval

fits : (m p : ℕ) → m < p → ltb (p - 1) m ≡ false
fits m p h = ground arith

exceeds : (m p : ℕ) → ltb (p - 1) m ≡ true → p ≤ m
exceeds m p h = ground arith

stays : (m p : ℕ) → 1 ≤ p → ltb (p - 1) m ≡ false → m < p
stays m p one h = ground arith

bitness_loop-IsBitness :
    (fuel b maxval : ℕ)
    → 8 ≤ b
    → b + fuel ≤ 16
    → (8 < b → 2 ^ (b - 1) ≤ maxval)
    → maxval < 2 ^ (b + fuel)
    → (r : ℕ) × (bitness_loop (suc fuel) b maxval ≡ some r) × IsBitness maxval r
unfolding bitness_loop
bitness_loop-IsBitness zero b maxval lo hi n f =
    let same : b + 0 ≡ b = omega arith in
    let g : maxval < 2 ^ b = subst (λ e. maxval < 2 ^ e) same f in
    (
      b,
      rw (fits maxval (2 ^ b) g) refl,
      record { at_least = lo; at_most = omega arith; enough = g; needed = n },
    )
bitness_loop-IsBitness (suc fuel) b maxval lo hi n f = elim (Bool-cases (ltb (2 ^ b - 1) maxval)) [
  | inl more ↦
      let below : b ≡ b + 1 - 1 = omega arith in
      let up : b + suc fuel ≡ b + 1 + fuel = omega arith in
      let (r, e, i) =
        bitness_loop-IsBitness fuel (b + 1) maxval (omega arith) (omega arith)
          (λ _. subst (λ e. 2 ^ e ≤ maxval) below (exceeds maxval (2 ^ b) more))
          (subst (λ e. maxval < 2 ^ e) up f) in
      (r, rw more e, i)
  | inr enough ↦ (
    b,
    rw enough refl,
    record {
      at_least = lo;
      at_most = omega arith;
      enough = stays maxval (2 ^ b) (one-le-pow b 2 (omega arith)) enough;
      needed = n;
    },
  )
]

-- For a largest sample of at most 16 bits, the loop of `pgm_load` ends with the least bitness from
-- 8 on whose samples reach it, and that is at most 16.
pub pgm_bitness-IsBitness :
    (maxval : ℕ) → maxval ≤ 65535 → (b : ℕ) × (pgm_bitness maxval ≡ some b) × IsBitness maxval b
unfolding pgm_bitness
pgm_bitness-IsBitness maxval h =
    bitness_loop-IsBitness 8 8 maxval (omega arith) (omega arith) (λ x. absurd (omega arith))
      (omega arith)
