-- ===== src/Common/Int.antt =====
-- Signed integers over the native numbers, and Go's `int32` arithmetic, which wraps around.
use quantumbilling.Common.{
  ℕ, suc, ◌+◌, ◌-◌, ◌%◌, ◌<◌, ◌≤◌, ◌≡◌, Bool, true, false, arith, ltb, leb, if◌then◌else◌,
}

-- `negsuc n` is -(n + 1).
pub data ℤ : Type 0 where
  pos : ℕ → ℤ
  negsuc : ℕ → ℤ

abbrev pub pos_part : ℤ → ℕ
pos_part (pos n) = n
pos_part (negsuc n) = 0

abbrev pub neg_part : ℤ → ℕ
neg_part (pos n) = 0
neg_part (negsuc n) = suc n

-- a - b, as an integer.
abbrev pub sub_ℕ : ℕ → ℕ → ℤ
sub_ℕ a b = if leb b a then pos (a - b) else negsuc (b - a - 1)

infixl 65 ◌+ℤ◌
unfoldable pub ◌+ℤ◌ : ℤ → ℤ → ℤ
a +ℤ b = sub_ℕ (pos_part a + pos_part b) (neg_part a + neg_part b)

-- `n < 0` and `n == 0`
abbrev pub is_neg : ℤ → Bool
is_neg (pos n) = false
is_neg (negsuc n) = true

abbrev pub is_zero : ℤ → Bool
is_zero (pos n) = leb n 0
is_zero (negsuc n) = false

abbrev pub int32_mod : ℕ
int32_mod = 4294967296

abbrev pub int32_half : ℕ
int32_half = 2147483648

-- The integer that the low 32 bits stand for.
unfoldable pub wrap32 : ℤ → ℤ
wrap32 (pos n) = let m = n % int32_mod in if ltb m int32_half then pos m else sub_ℕ m int32_mod
wrap32 (negsuc n) =
    let m = int32_mod - 1 - n % int32_mod in if ltb m int32_half then pos m else sub_ℕ m int32_mod

-- `a + b` at `int32`
unfoldable pub add32 : ℤ → ℤ → ℤ
unfolding wrap32 ◌+ℤ◌
add32 a b = wrap32 (a +ℤ b)

pub record IsInt32 (a : ℤ) : Type 0 where
  pub upper : pos_part a < int32_half
  pub lower : neg_part a ≤ int32_half

pub add32-IsInt32 : (a b : ℤ) → IsInt32 (add32 a b)
unfolding add32
add32-IsInt32 (pos a) (pos b) = ground arith
add32-IsInt32 (pos a) (negsuc b) = ground arith
add32-IsInt32 (negsuc a) (pos b) = ground arith
add32-IsInt32 (negsuc a) (negsuc b) = ground arith

-- Two counts whose sum fits are added exactly.
pub add32_exact : (a b : ℕ) → a + b < int32_half → add32 (pos a) (pos b) ≡ pos (a + b)
unfolding add32
add32_exact a b h = ground arith

-- Two counts whose sum does not fit give a negative number.
pub add32_wraps :
    (a b : ℕ)
    → a < int32_half
    → b < int32_half
    → int32_half ≤ a + b
    → is_neg (add32 (pos a) (pos b)) ≡ true
unfolding add32
add32_wraps a b ha hb h = ground arith
