-- ===== src/Prelude/Word.antt =====
-- Fields and bits of machine words. A mask of low bits is a remainder, a shift a quotient.
use Prim.Native.Nat.{ℕ, ◌+◌, ◌/◌, ◌%◌, ◌^◌, ◌<◌}
use mathlib.Core.Bool.{Bool}
use open_jls_demos.Prelude.Tests.{◌==◌, if◌then◌else◌}

abbrev pub u8 : ℕ → ℕ
u8 v = v % 2 ^ 8

abbrev pub u16 : ℕ → ℕ
u16 v = v % 2 ^ 16

abbrev pub u32 : ℕ → ℕ
u32 v = v % 2 ^ 32

abbrev pub u64 : ℕ → ℕ
u64 v = v % 2 ^ 64

abbrev pub IsU8 : ℕ → Type 0
IsU8 v = v < 2 ^ 8

abbrev pub IsU16 : ℕ → Type 0
IsU16 v = v < 2 ^ 16

abbrev pub IsU32 : ℕ → Type 0
IsU32 v = v < 2 ^ 32

-- `(v & (1u << k)) != 0`
abbrev pub test_bit : ℕ → ℕ → Bool
test_bit v k = v / 2 ^ k % 2 == 1

-- `v | (1u << k)`
abbrev pub set_bit : ℕ → ℕ → ℕ
set_bit v k = if test_bit v k then v else v + 2 ^ k
