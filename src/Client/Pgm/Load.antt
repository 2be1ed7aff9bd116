-- ===== src/Client/Pgm/Load.antt =====
-- What `pgm_load` hands over.
use open_jls_demos.Prelude.{
  ℕ, zero, suc, inl, inr, ◌-◌, ◌*◌, ◌^◌, ◌≤◌, ◌<◌, ◌≡◌, ◌||◌, refl, sym, ap, ◌∙◌, Bool, true, false,
  not, List, [], ◌∷◌, Option, none, some, length, length-take, take, u32, ltb, ◌==◌, ◌!=◌,
  if◌then◌else◌, Bool-cases, ltb_iff, arith,
}
use mathlib.Core.Path.{subst}
use mathlib.Core.Option.{some_inj}
use native.Mathlib.Nat.{pow-le-pow_right}
use open_jls_demos.Client.{Image}
use open_jls_demos.Client.Pgm.{
  swap_samples, pgm_token, pgm_bitness, pgm_pixels, or_fail, pgm_body, pgm_header, pgm_load,
}
use open_jls_demos.Client.Pgm.Bitness.{IsBitness, pgm_bitness-IsBitness}

-- An image that the wire protocol can carry.
pub record IsImage (img : Image) : Type 0 where
  pub width : (1 ≤ img.width) × (img.width ≤ 65535)
  pub height : (1 ≤ img.height) × (img.height ≤ 65535)
  pub bitness : (8 ≤ img.bitness) × (img.bitness ≤ 16)
  pub bytes : img.bytes ≡ u32 (img.width * img.height * (if ltb 8 img.bitness then 2 else 1))
  pub pixels : length img.pixels ≡ img.bytes

length-swap : (n : ℕ) (ps : List ℕ) → length (swap_samples n ps) ≡ length ps
unfolding swap_samples
length-swap zero ps = refl
length-swap (suc n) [] = refl
length-swap (suc n) (p ∷ []) = refl
length-swap (suc n) (p ∷ q ∷ ps) = ap suc (ap suc (length-swap n ps))

or_fail-some :
    {A B : Type 0} (o : Option A) (k : A → Option B) {b : B}
    → or_fail o k ≡ some b
    → (a : A) × (o ≡ some a) × (k a ≡ some b)
or_fail-some none k e = cc
or_fail-some (some a) k e = (a, refl, e)

length-if :
    (b : Bool) (xs ys : List ℕ) {n : ℕ}
    → length xs ≡ n
    → length ys ≡ n
    → length (if b then xs else ys) ≡ n
length-if true xs ys h k = h
length-if false xs ys h k = k

if_none :
    {A : Type 0} (b : Bool) (o : Option A) {a : A}
    → (if b then none else o) ≡ some a
    → (b ≡ false) × (o ≡ some a)
if_none true o e = cc
if_none false o e = (refl, e)

-- More than 8 bits exactly where the largest sample does not fit a byte.
wide_iff : (maxval b : ℕ) → IsBitness maxval b → ltb 255 maxval ≡ ltb 8 b
wide_iff maxval b i = elim (Bool-cases (ltb 8 b)) [
  | inl w ↦
      let more : 8 < b = (ltb_iff 8 b).0 w in
      let far : 2 ^ 8 ≤ 2 ^ (b - 1) =
        pow-le-pow_right {n = 2} (omega arith) {i = 8} {j = b - 1} (omega arith) in
      (ltb_iff 255 maxval).1 (omega (arith, far, i.needed more)) ∙ sym w
  | inr n ↦
      let same : b ≡ 8 = ground (arith, i.at_least) in
      let low : maxval < 2 ^ 8 = subst (λ x. maxval < 2 ^ x) same i.enough in ground (arith, n, low)
]

pixels-IsImage :
    (memory : ℕ → Bool) (w h maxval : ℕ) (file : List ℕ) (b : ℕ) (img : Image)
    → (1 ≤ w) × (w ≤ 65535)
    → (1 ≤ h) × (h ≤ 65535)
    → IsBitness maxval b
    → pgm_pixels memory w h maxval file b ≡ some img
    → IsImage img
unfolding pgm_pixels
pixels-IsImage memory w h maxval file b img hw hh i e =
    let bytes = u32 (w * h * (if ltb 255 maxval then 2 else 1)) in
    let (m, f) = if_none (not (memory bytes)) _ e in
    let (long, g) = if_none (ltb (length file) bytes) _ f in
    let all : length (take bytes file) ≡ bytes = length-take bytes file ∙ ground (arith, long) in
    subst IsImage (some_inj.0 g) (record {
      width = hw;
      height = hh;
      bitness = (i.at_least, i.at_most);
      bytes = ap (λ x. u32 (w * h * (if x then 2 else 1))) (wide_iff maxval b i);
      pixels = length-if (ltb 255 maxval) _ _ (length-swap (w * h) (take bytes file) ∙ all) all;
    })

body-IsImage :
    (memory : ℕ → Bool) (w h maxval : ℕ) (file : List ℕ) (img : Image)
    → pgm_body memory w h maxval file ≡ some img
    → IsImage img
unfolding pgm_body
body-IsImage memory w h maxval file img e =
    let (ok, f) =
      if_none (w == 0 || h == 0 || ltb 65535 w || ltb 65535 h || maxval == 0 || ltb 65535 maxval) _
        e in
    let (b, at, i) = pgm_bitness-IsBitness maxval (ground (arith, ok)) in
    let (c, same, g) = or_fail-some (pgm_bitness maxval) (pgm_pixels memory w h maxval file) f in
    pixels-IsImage memory w h maxval file c img (ground (arith, ok)) (ground (arith, ok))
      (subst (IsBitness maxval) (some_inj.0 (sym at ∙ same)) i) g

header-IsImage :
    (memory : ℕ → Bool) (file : List ℕ) (img : Image)
    → pgm_header memory file ≡ some img
    → IsImage img
unfolding pgm_header
header-IsImage memory file img e =
    let ((w, file₁), _, f) = or_fail-some (pgm_token file) _ e in
    let ((h, file₂), _, g) = or_fail-some (pgm_token file₁) _ f in
    let ((maxval, file₃), _, i) = or_fail-some (pgm_token file₂) _ g in
    body-IsImage memory w h maxval file₃ img i

-- Whatever file `pgm_load` accepts, its image has dimensions of 16 bits that are not 0, a bitness
-- from 8 to 16, the size that these give modulo 2 ^ 32, and as many bytes of pixels as that.
pub pgm_load-IsImage :
    (memory : ℕ → Bool) (file : List ℕ) (img : Image)
    → pgm_load memory file ≡ some img
    → IsImage img
unfolding pgm_load
pgm_load-IsImage memory [] img e = cc
pgm_load-IsImage memory (c ∷ []) img e = cc
pgm_load-IsImage memory (c ∷ d ∷ file) img e =
    header-IsImage memory file img (if_none (c != 80 || d != 53) _ e).1
