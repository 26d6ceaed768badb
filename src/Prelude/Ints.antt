-- ===== src/Prelude/Ints.antt =====
-- Go's `int` as far as the program uses it: a sign, an order against zero.
use Prim.Native.Nat.{ℕ, zero, suc}
use mathlib.Core.Bool.{Bool, true, false}

-- `negsuc n` is -(n + 1).
pub data ℤ : Type 0 where
  pos : ℕ → ℤ
  negsuc : ℕ → ℤ

-- `i < 0`
abbrev pub is_negative : ℤ → Bool
is_negative (pos n) = false
is_negative (negsuc n) = true

-- `i > 0`
abbrev pub is_positive : ℤ → Bool
is_positive (pos zero) = false
is_positive (pos (suc n)) = true
is_positive (negsuc n) = false

-- `i == 0`
abbrev pub is_zero : ℤ → Bool
is_zero (pos zero) = true
is_zero (pos (suc n)) = false
is_zero (negsuc n) = false
