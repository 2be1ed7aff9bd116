-- ===== src/Prelude/Texts.antt =====
-- C strings as lists of bytes, without the NUL that ends them.
use Prim.Native.Nat.{ℕ, ◌+◌, ◌-◌, ◌*◌, ◌%◌, ◌^◌, min}
use Prim.Native.Char.{code}
use Prim.Native.String.{String}
use mathlib.Core.Bool.{Bool, true, false, ◌&&◌, ◌||◌}
use mathlib.Core.List.{List, [], ◌∷◌}
use mathlib.Core.Option.{Option, none, some}
use open_jls_demos.Prelude.Tests.{leb, ltb, ◌==◌, if◌then◌else◌}
use open_jls_demos.Prelude.Int.{ℤ, pos, negsuc}

-- The bytes of an ASCII text.
abbrev pub codes : String → List ℕ
codes String.[] = []
codes (String.◌∷◌ c s) = code c ∷ codes s

-- `strcmp(s, t) == 0`
abbrev pub str_eq : List ℕ → List ℕ → Bool
str_eq [] [] = true
str_eq [] (c ∷ t) = false
str_eq (c ∷ s) [] = false
str_eq (c ∷ s) (d ∷ t) = (c == d) && str_eq s t

-- `strncmp(s, p, strlen(p)) == 0`
abbrev pub starts_with : List ℕ → List ℕ → Bool
starts_with [] s = true
starts_with (c ∷ p) [] = false
starts_with (c ∷ p) (d ∷ s) = (c == d) && starts_with p s

-- `strstr(s, p) != NULL`
abbrev pub strstr : List ℕ → List ℕ → Bool
strstr [] p = starts_with p []
strstr (c ∷ s) p = starts_with p (c ∷ s) || strstr s p

-- isspace and isdigit of the C locale
abbrev pub is_space : ℕ → Bool
is_space c = c == 32 || (leb 9 c && leb c 13)

abbrev pub is_digit : ℕ → Bool
is_digit c = leb 48 c && leb c 57

-- The text before the last `c`, or nothing if there is none, and the text behind it: strrchr.
abbrev pub before_last : ℕ → List ℕ → Option (List ℕ)
before_last c [] = none
before_last c (d ∷ s) = elim (before_last c s) [
  | none ↦ if c == d then some [] else none
  | some front ↦ some (d ∷ front)
]

abbrev pub after_last : ℕ → List ℕ → Option (List ℕ)
after_last c [] = none
after_last c (d ∷ s) = elim (after_last c s) [
  | none ↦ if c == d then some s else none
  | some back ↦ some back
]

-- The number that digits of a base spell, and the text behind them.
abbrev pub digit_value : ℕ → ℕ
digit_value c =
    if is_digit c
    then c - 48
    else if leb 97 c && leb c 122
    then c - 87
    else if leb 65 c && leb c 90
    then c - 55
    else 255

unfoldable pub read_number : ℕ → ℕ → List ℕ → ℕ
read_number base acc [] = acc
read_number base acc (c ∷ s) =
    let rest = read_number base (acc * base + digit_value c) s in
    if ltb (digit_value c) base then rest else acc

unfoldable pub skip_spaces : List ℕ → List ℕ
skip_spaces [] = []
skip_spaces (c ∷ s) = let rest = skip_spaces s in if is_space c then rest else c ∷ s

-- The base that a prefix names, as for base 0: `0x` needs a digit behind it.
unfoldable pub read_prefixed : List ℕ → ℕ
unfolding read_number
read_prefixed [] = 0
read_prefixed (c ∷ []) = read_number 10 0 (c ∷ [])
read_prefixed (c ∷ d ∷ []) =
    if c == 48 then read_number 8 0 (d ∷ []) else read_number 10 0 (c ∷ d ∷ [])
read_prefixed (c ∷ d ∷ e ∷ s) =
    if c == 48
    then (if (d == 120 || d == 88) && ltb (digit_value e) 16
        then read_number 16 0 (e ∷ s)
        else read_number 8 0 (d ∷ e ∷ s))
    else read_number 10 0 (c ∷ d ∷ e ∷ s)

-- Behind the spaces, for a result of `w` bits.
abbrev pub at_most_word : ℕ → ℕ → ℕ
at_most_word w v = min v (2 ^ w - 1)

unfoldable pub read_signed : ℕ → List ℕ → ℕ
read_signed w [] = 0
read_signed w (c ∷ t) =
    if c == 45
    then (if ltb (read_prefixed t) (2 ^ w) then (2 ^ w - read_prefixed t) % 2 ^ w else 2 ^ w - 1)
    else if c == 43
    then at_most_word w (read_prefixed t)
    else at_most_word w (read_prefixed (c ∷ t))

-- `strtoull(s, NULL, 0)`: ULLONG_MAX out of range, and a minus sign negates.
unfoldable pub strtoull : List ℕ → ℕ
unfolding skip_spaces read_signed
strtoull s = read_signed 64 (skip_spaces s)

-- `strtoul(s, NULL, 0)` where `unsigned long` has 32 bits
unfoldable pub strtoul : List ℕ → ℕ
unfolding skip_spaces read_signed
strtoul s = read_signed 32 (skip_spaces s)

-- An unsigned 32-bit word as an `int`.
abbrev pub to_int : ℕ → ℤ
to_int v = if ltb (v % 2 ^ 32) (2 ^ 31) then pos (v % 2 ^ 32) else negsuc (2 ^ 32 - 1 - v % 2 ^ 32)

-- Behind the spaces.
unfoldable pub read_int : List ℕ → ℤ
read_int [] = pos 0
read_int (c ∷ t) =
    if c == 45
    then to_int (2 ^ 64 - min (read_number 10 0 t) (2 ^ 63))
    else if c == 43
    then to_int (min (read_number 10 0 t) (2 ^ 63 - 1))
    else to_int (min (read_number 10 0 (c ∷ t)) (2 ^ 63 - 1))

-- `atoi(s)`: a 64-bit `strtol`, cut to an `int`.
unfoldable pub atoi : List ℕ → ℤ
unfolding skip_spaces read_int
atoi s = read_int (skip_spaces s)
