-- ===== src/Common/Int.antt =====
-- C's signed integers, as far as the code tests them: an `int` result is zero, negative or neither.
use Prim.Native.Nat.{ℕ, zero, suc, ◌<◌}
use mathlib.Core.Path.{◌≡◌, refl}
use mathlib.Core.Bool.{Bool, true, false}
use native.Mathlib.Omega.{arith}
use hubble_reference_thingy.Common.Tests.{◌==◌}

-- `negsuc n` is -(n + 1).
pub data ℤ : Type 0 where
  pos : ℕ → ℤ
  negsuc : ℕ → ℤ

-- C's unary minus on a number, as in `-EINVAL`.
abbrev pub neg : ℕ → ℤ
neg zero = pos 0
neg (suc n) = negsuc n

abbrev pub is_zero : ℤ → Bool
is_zero (pos zero) = true
is_zero (pos (suc n)) = false
is_zero (negsuc n) = false

abbrev pub is_neg : ℤ → Bool
is_neg (pos n) = false
is_neg (negsuc n) = true

infix 50 ◌==ℤ◌
abbrev pub ◌==ℤ◌ : ℤ → ℤ → Bool
pos a ==ℤ pos b = a == b
negsuc a ==ℤ negsuc b = a == b
pos a ==ℤ negsuc b = false
negsuc a ==ℤ pos b = false

pub is_zero-neg : (n : ℕ) → 0 < n → is_zero (neg n) ≡ false
is_zero-neg zero h = absurd (omega arith)
is_zero-neg (suc n) h = refl

pub pos→==ℤ : (x : ℤ) (n : ℕ) → x ≡ pos n → (x ==ℤ pos n) ≡ true
pos→==ℤ x n h = rw h (ground arith)
