-- ===== src/Client/Pgm.antt =====
-- Software/host/ojls_client.c: `pgm_token` and `pgm_load`. A file is the list of its bytes that
-- are still to be read, and `unsigned long` has 64 bits.
pub mod Bitness
pub mod Load
pub mod Samples
use open_jls_demos.Prelude.{
  is_space, is_digit, ℕ, zero, suc, ◌+◌, ◌-◌, ◌*◌, ◌^◌, Bool, true, false, ◌||◌, ◌&&◌, not, List,
  [], ◌∷◌, Option, none, some, length, take, u32, u64, ltb, leb, ◌==◌, ◌!=◌, if◌then◌else◌,
}
use open_jls_demos.Client.{Image}

-- The digits of a number, and the character that ends them.
unfoldable pub digits : ℕ → List ℕ → ℕ × List ℕ
digits acc [] = (acc, [])
digits acc (c ∷ cs) = if is_digit c then digits (u64 (u64 (acc * 10) + (c - 48))) cs else (acc, cs)

-- The first loop of `pgm_token`, in a comment or not, and what follows it.
unfoldable pub skip_to_digit : Bool → List ℕ → Option (ℕ × List ℕ)
unfolding digits
skip_to_digit comment [] = none
skip_to_digit true (c ∷ cs) = let rest = skip_to_digit (c != 10) cs in rest
skip_to_digit false (c ∷ cs) =
    let rest = skip_to_digit (c == 35) cs in
    if c == 35 || is_space c then rest else if is_digit c then some (digits 0 (c ∷ cs)) else none

unfoldable pub pgm_token : List ℕ → Option (ℕ × List ℕ)
pgm_token file = skip_to_digit false file

-- The loop that derives `bitness` from `maxval`.
unfoldable pub bitness_loop : ℕ → ℕ → ℕ → Option ℕ
bitness_loop zero bitness maxval = none
bitness_loop (suc fuel) bitness maxval =
    let more = bitness_loop fuel (bitness + 1) maxval in
    if ltb (2 ^ bitness - 1) maxval then more else some bitness

-- 16 is reached after 8 rounds.
unfoldable pub pgm_bitness : ℕ → Option ℕ
pgm_bitness maxval = bitness_loop 9 8 maxval

-- The byte swap over `npix` samples, up to the end of the buffer.
unfoldable pub swap_samples : ℕ → List ℕ → List ℕ
swap_samples zero ps = ps
swap_samples (suc npix) (hi ∷ lo ∷ ps) = lo ∷ hi ∷ swap_samples npix ps
swap_samples (suc npix) ps = ps

-- From the allocation on; `memory` is what `malloc` answers.
unfoldable pub pgm_pixels : (ℕ → Bool) → ℕ → ℕ → ℕ → List ℕ → ℕ → Option Image
pgm_pixels memory w h maxval file bitness =
    let npix = w * h in
    let bytes = u32 (npix * (if ltb 255 maxval then 2 else 1)) in
    if not (memory bytes)
    then none
    else if ltb (length file) bytes
    then none
    else some (record {
      width = w;
      height = h;
      bitness = bitness;
      bytes = bytes;
      pixels = if ltb 255 maxval then swap_samples npix (take bytes file) else take bytes file;
    })

abbrev pub or_fail : {A B : Type 0} → Option A → (A → Option B) → Option B
or_fail none k = none
or_fail (some a) k = k a

unfoldable pub pgm_body : (ℕ → Bool) → ℕ → ℕ → ℕ → List ℕ → Option Image
pgm_body memory w h maxval file =
    if w == 0 || h == 0 || ltb 65535 w || ltb 65535 h || maxval == 0 || ltb 65535 maxval
    then none
    else or_fail (pgm_bitness maxval) (pgm_pixels memory w h maxval file)

-- The three numbers of the header, then the rest.
unfoldable pub pgm_header : (ℕ → Bool) → List ℕ → Option Image
pgm_header memory file = or_fail (pgm_token file) λ (w, file₁).
    or_fail (pgm_token file₁)
      λ (h, file₂). or_fail (pgm_token file₂) λ (maxval, file₃). pgm_body memory w h maxval file₃

-- The file is open; `none` is the code -1. The file begins with `P5`.
unfoldable pub pgm_load : (ℕ → Bool) → List ℕ → Option Image
pgm_load memory (c1 ∷ c2 ∷ file) = if c1 != 80 || c2 != 53 then none else pgm_header memory file
pgm_load memory file = none
