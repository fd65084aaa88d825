-- ===== src/Base/Signed.antt =====
-- C's signed results as integers: `negsuc n` is -(n + 1).
use Prim.Native.Nat.{ℕ, zero, suc, ◌+◌, ◌-◌, ◌/◌, ◌%◌, ◌^◌}
use mathlib.Core.Bool.{Bool, true, false, not}
use simple_microkernel.Base.Tests.{ltb, leb, if◌then◌else◌}

pub data ℤ : Type 0 where
  pos : ℕ → ℤ
  negsuc : ℕ → ℤ

-- the result -1 by which most functions report an error
abbrev pub minus_one : ℤ
minus_one = negsuc 0

abbrev pub pos_part : ℤ → ℕ
pos_part (pos n) = n
pos_part (negsuc n) = 0

abbrev pub neg_part : ℤ → ℕ
neg_part (pos n) = 0
neg_part (negsuc n) = suc n

-- a - b, as an integer
abbrev pub sub_ℕ : ℕ → ℕ → ℤ
sub_ℕ a b = if leb b a then pos (a - b) else negsuc (b - a - 1)

-- `x < 0`
abbrev pub is_negative : ℤ → Bool
is_negative (pos n) = false
is_negative (negsuc n) = true

-- `x <= 0`
abbrev pub not_positive : ℤ → Bool
not_positive (pos zero) = true
not_positive (pos (suc n)) = false
not_positive (negsuc n) = true

-- a < b
abbrev pub lt_ℤ : ℤ → ℤ → Bool
lt_ℤ a b = ltb (pos_part a + neg_part b) (pos_part b + neg_part a)

-- a - b
infixl 65 ◌-ℤ◌
abbrev pub ◌-ℤ◌ : ℤ → ℤ → ℤ
a -ℤ b = sub_ℕ (pos_part a + neg_part b) (pos_part b + neg_part a)

-- the value of a byte that is read as a (signed) `char`
abbrev pub char_value : ℕ → ℤ
char_value b = if ltb b 128 then pos b else negsuc (256 - b - 1)

-- the value of a 32-bit pattern that is read as an `int`
abbrev pub int_value : ℕ → ℤ
int_value w = if ltb w (2 ^ 31) then pos w else negsuc (2 ^ 32 - w - 1)

-- a + b
infixl 65 ◌+ℤ◌
abbrev pub ◌+ℤ◌ : ℤ → ℤ → ℤ
a +ℤ b = sub_ℕ (pos_part a + pos_part b) (neg_part a + neg_part b)

-- the 32-bit pattern of an `int`
abbrev pub word_value : ℤ → ℕ
word_value (pos n) = n % 2 ^ 32
word_value (negsuc n) = 2 ^ 32 - 1 - n % 2 ^ 32

-- the absolute value, and the integer of a sign and an absolute value
abbrev pub abs : ℤ → ℕ
abs a = pos_part a + neg_part a

abbrev pub with_sign : Bool → ℕ → ℤ
with_sign negative n = if negative then sub_ℕ 0 n else pos n

-- C's division, which rounds towards 0, and the remainder, which has the sign of the dividend
infixl 70 ◌/ℤ◌
abbrev pub ◌/ℤ◌ : ℤ → ℤ → ℤ
a /ℤ b = with_sign (if is_negative a then not (is_negative b) else is_negative b) (abs a / abs b)

infixl 70 ◌%ℤ◌
abbrev pub ◌%ℤ◌ : ℤ → ℤ → ℤ
a %ℤ b = with_sign (is_negative a) (abs a % abs b)
