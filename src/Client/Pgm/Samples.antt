-- ===== src/Client/Pgm/Samples.antt =====
-- The byte order of the samples: big-endian in the file, little-endian on the wire.
use open_jls_demos.Prelude.{
  ℕ, zero, suc, ◌+◌, ◌*◌, ◌≡◌, refl, ap, ◌∙◌, List, [], ◌∷◌, length, arith,
}
use open_jls_demos.Client.Pgm.{swap_samples}

-- The samples of two bytes, read from a file and read from the wire.
abbrev pub file_samples : List ℕ → List ℕ
file_samples (hi ∷ lo ∷ ps) = (hi * 256 + lo) ∷ file_samples ps
file_samples ps = []

abbrev pub wire_samples : List ℕ → List ℕ
wire_samples (p ∷ q ∷ ps) = (p + q * 256) ∷ wire_samples ps
wire_samples ps = []

-- For a buffer of `npix` samples of two bytes, the wire shows after the swap the samples of the
-- file, in their order, and another swap restores the buffer.
pub swap_samples-order :
    (npix : ℕ) (ps : List ℕ)
    → length ps ≡ npix * 2
    → (wire_samples (swap_samples npix ps) ≡ file_samples ps)
      × (swap_samples npix (swap_samples npix ps) ≡ ps)
unfolding swap_samples
swap_samples-order zero [] h = (refl, refl)
swap_samples-order zero (p ∷ ps) h = absurd (omega arith)
swap_samples-order (suc n) [] h = (refl, refl)
swap_samples-order (suc n) (p ∷ []) h = absurd (omega arith)
swap_samples-order (suc n) (p ∷ q ∷ ps) h =
    let (s, r) = swap_samples-order n ps (omega arith) in
    let same : q + p * 256 ≡ p * 256 + q = omega arith in
    (
      ap (λ x. x ∷ wire_samples (swap_samples n ps)) same ∙ ap (λ xs. (p * 256 + q) ∷ xs) s,
      ap (λ xs. p ∷ q ∷ xs) r,
    )
