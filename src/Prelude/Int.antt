-- ===== src/Prelude/Int.antt =====
-- Signed integers over the native numbers: a Python int, and a difference of two clock readings.
use Prim.Native.Nat.{◌+◌, ℕ, suc, ◌-◌}
use mathlib.Core.Bool.{Bool, false}
use model_council_lab.Prelude.Tests.{ltb, leb, if◌then◌else◌}

-- `negsuc n` is -(n + 1).
pub data ℤ : Type 0 where
  pos : ℕ → ℤ
  negsuc : ℕ → ℤ

abbrev pub pos_part : ℤ → ℕ
pos_part (pos n) = n
pos_part (negsuc n) = 0

abbrev pub neg_part : ℤ → ℕ
neg_part (pos n) = 0
neg_part (negsuc n) = suc n

-- a - b, as an integer.
abbrev pub sub_ℕ : ℕ → ℕ → ℤ
sub_ℕ a b = if leb b a then pos (a - b) else negsuc (b - a - 1)

-- The test `n > 0`.
abbrev pub is_positive : ℤ → Bool
is_positive (pos n) = ltb 0 n
is_positive (negsuc n) = false

-- a >= b
abbrev pub at_least : ℤ → ℤ → Bool
at_least a b = leb (pos_part b + neg_part a) (pos_part a + neg_part b)
