-- ===== src/Base/Masks.antt =====
-- Masks of one bit, and of the low and the high bits of a word.
use Prim.Native.Nat.{ℕ, zero, suc, ◌+◌, ◌-◌, ◌*◌, ◌/◌, ◌%◌, ◌^◌, ◌≤◌, ◌<◌, bit_and, bit_or}
use mathlib.Core.Path.{◌≡◌, refl, ap}
use mathlib.Core.Bool.{Bool, true, ◌&&◌}
use native.Mathlib.Omega.{arith}
use native.Mathlib.Nat.{pow-suc}
use native.Mathlib.Decide.{ℕ_discrete}
use simple_microkernel.Base.Tests.{◌==◌, if◌then◌else◌}
use simple_microkernel.Base.Bits.{
  bit, bit-lt, bit-bit_and, bit-bit_or, bit_and-halves, bit_or-halves,
}

-- `f` and `g` have the same values below `n`, by evaluation.
agree : (f g : ℕ → ℕ) → ℕ → Bool
agree f g zero = true
agree f g (suc n) = agree f g n && f n == g n

agree_at : (f g : ℕ → ℕ) (n x : ℕ) → agree f g n ≡ true → x < n → f x ≡ g x
unfolding agree
agree_at f g zero x h lt = absurd (omega arith)
agree_at f g (suc n) x h lt = elim (ℕ_discrete x n) [
  | yes last ↦ rw last (ground arith)
  | no earlier ↦ agree_at f g n x (ground arith) (omega arith)
]

-- Number `x` stands for digit `x % 32` of the mask for digit `x / 32`.
abbrev indicator : (hit miss : ℕ) → ℕ → ℕ
indicator hit miss x = if x % 32 == x / 32 then hit else miss

-- `~(1 << k)` as a uint32_t
abbrev pub not_bit : ℕ → ℕ
not_bit k = 2 ^ 32 - 1 - 2 ^ k

abbrev mask_digits : (ℕ → ℕ) → ℕ → ℕ
mask_digits mask x = bit (x % 32) (mask (x / 32))

one_table : agree (mask_digits (λ k. 2 ^ k)) (indicator 1 0) 1024 ≡ true
unfolding agree bit
one_table = refl

not_table : agree (mask_digits not_bit) (indicator 0 1) 1024 ≡ true
unfolding agree bit
not_table = refl

module _ (k j : ℕ) (hk : k < 32) (hj : j < 32) where
  abbrev index : ℕ
  index = k * 32 + j

  row : index / 32 ≡ k
  row = omega arith

  column : index % 32 ≡ j
  column = omega arith

  pub bit-one : bit j (2 ^ k) ≡ (if j == k then 1 else 0)
  bit-one =
      rw (row, column) at
        (agree_at (mask_digits (λ k. 2 ^ k)) (indicator 1 0) 1024 index one_table (omega arith))

  pub bit-not_bit : bit j (not_bit k) ≡ (if j == k then 0 else 1)
  bit-not_bit =
      rw (row, column) at
        (agree_at (mask_digits not_bit) (indicator 0 1) 1024 index not_table (omega arith))

-- Induction on the digits of a number.
halving : (P : ℕ → Type 0) → P 0 → ((a : ℕ) → P (a / 2) → P a) → (n a : ℕ) → a ≤ n → P a
halving P z next n zero h = z
halving P z next zero (suc a) h = absurd (omega arith)
halving P z next (suc n) (suc a) h = next (suc a) (halving P z next n (suc a / 2) (omega arith))

pub bit_and-zero : (a : ℕ) → bit_and a 0 ≡ 0
bit_and-zero a =
    halving (λ b. bit_and b 0 ≡ 0) refl (λ b ih. omega (arith, bit_and-halves b 0, ih)) a a
      (omega arith)

pub bit_or-zero : (a : ℕ) → bit_or a 0 ≡ a
bit_or-zero a =
    halving (λ b. bit_or b 0 ≡ b) refl (λ b ih. omega (arith, bit_or-halves b 0, ih)) a a
      (omega arith)

-- `w & (1 << k)` is the digit in its place.
pub bit_and-one : (k w : ℕ) → bit_and w (2 ^ k) ≡ bit k w * 2 ^ k
unfolding bit
bit_and-one zero w = omega (arith, bit_and-halves w 1, bit_and-zero (w / 2))
bit_and-one (suc k) w = rw pow-suc (
    omega (arith, bit_and-halves w (2 ^ k * 2), ap (bit_and (w / 2)) halved, bit_and-one k (w / 2)))
  where
    halved : 2 ^ k * 2 / 2 ≡ 2 ^ k
    halved = omega arith

pub pow-ne-zero : (k : ℕ) → 0 < 2 ^ k
pow-ne-zero zero = omega arith
pow-ne-zero (suc k) = rw pow-suc (omega (arith, pow-ne-zero k))

-- The C test `if (w & (1 << k))` reads digit `k`.
pub bit_and-one_test : (k w : ℕ) → (bit_and w (2 ^ k) == 0) ≡ (bit k w == 0)
bit_and-one_test k w = rw (bit_and-one k w) (split (bit k w) (bit-lt k w))
  where
    split : (b : ℕ) → b < 2 → (b * 2 ^ k == 0) ≡ (b == 0)
    split zero h = ground arith
    split (suc zero) h = ground (arith, pow-ne-zero k)
    split (suc (suc b)) h = absurd (omega arith)

-- Digit `j` after `w |= 1 << k` and after `w &= ~(1 << k)`.
pub bit-bit_or_one :
    (k j w : ℕ) → k < 32 → j < 32 → bit j (bit_or w (2 ^ k)) ≡ (if j == k then 1 else bit j w)
bit-bit_or_one k j w hk hj = ground (arith, bit-bit_or j w (2 ^ k), bit-one k j hk hj, bit-lt j w)

pub bit-bit_and_not :
    (k j w : ℕ) → k < 32 → j < 32 → bit j (bit_and w (not_bit k)) ≡ (if j == k then 0 else bit j w)
bit-bit_and_not k j w hk hj =
    ground (arith, bit-bit_and j w (not_bit k), bit-not_bit k j hk hj, bit-lt j w)

-- `w & (2 ^ k - 1)` for the masks of the program.
low_step : (a m : ℕ) → bit_and a (m * 2 + 1) ≡ bit_and (a / 2) m * 2 + a % 2
low_step a m = omega (arith, bit_and-halves a (m * 2 + 1), ap (bit_and (a / 2)) halved)
  where
    halved : (m * 2 + 1) / 2 ≡ m
    halved = omega arith

pub bit_and_15 : (a : ℕ) → bit_and a 0xf ≡ a % 16
bit_and_15 a = omega (
  arith,
  low_step a 7,
  low_step (a / 2) 3,
  low_step (a / 2 / 2) 1,
  low_step (a / 2 / 2 / 2) 0,
  bit_and-zero (a / 2 / 2 / 2 / 2),
)

low_two : (a m : ℕ) → bit_and a (m * 4 + 3) ≡ bit_and (a / 4) m * 4 + a % 4
low_two a m = omega (
  arith,
  low_step a (m * 2 + 1),
  low_step (a / 2) m,
  ap (bit_and a) mask,
  ap (λ (t : ℕ). bit_and t m) shifted,
)
  where
    mask : m * 4 + 3 ≡ (m * 2 + 1) * 2 + 1
    mask = omega arith

    shifted : a / 2 / 2 ≡ a / 4
    shifted = omega arith

-- four more digits of a mask
nibble : (a m : ℕ) → bit_and a (m * 16 + 15) ≡ bit_and (a / 16) m * 16 + a % 16
nibble a m = omega (
  arith,
  low_two a (m * 4 + 3),
  low_two (a / 4) m,
  ap (bit_and a) mask,
  ap (λ (t : ℕ). bit_and t m) shifted,
)
  where
    mask : m * 16 + 15 ≡ (m * 4 + 3) * 4 + 3
    mask = omega arith

    shifted : a / 4 / 4 ≡ a / 16
    shifted = omega arith

pub bit_and_255 : (a : ℕ) → bit_and a 0xff ≡ a % 256
bit_and_255 a = omega (arith, nibble a 15, bit_and_15 (a / 16))

pub bit_and_4095 : (a : ℕ) → bit_and a 0xfff ≡ a % 4096
bit_and_4095 a = omega (arith, nibble a 255, bit_and_255 (a / 16))

pub bit_and_65535 : (a : ℕ) → bit_and a 0xffff ≡ a % 65536
bit_and_65535 a = omega (arith, nibble a 4095, bit_and_4095 (a / 16))

-- `w & 0xfffff000` drops the low 12 digits of a word.
high_step : (a m : ℕ) → bit_and a (m * 2) ≡ bit_and (a / 2) m * 2
high_step a m = omega (arith, bit_and-halves a (m * 2), ap (bit_and (a / 2)) halved)
  where
    halved : m * 2 / 2 ≡ m
    halved = omega arith

high_two : (a m : ℕ) → bit_and a (m * 4) ≡ bit_and (a / 4) m * 4
high_two a m = omega (
  arith,
  high_step a (m * 2),
  high_step (a / 2) m,
  ap (bit_and a) mask,
  ap (λ (t : ℕ). bit_and t m) shifted,
)
  where
    mask : m * 4 ≡ m * 2 * 2
    mask = omega arith

    shifted : a / 2 / 2 ≡ a / 4
    shifted = omega arith

high_nibble : (a m : ℕ) → bit_and a (m * 16) ≡ bit_and (a / 16) m * 16
high_nibble a m = omega (
  arith,
  high_two a (m * 4),
  high_two (a / 4) m,
  ap (bit_and a) mask,
  ap (λ (t : ℕ). bit_and t m) shifted,
)
  where
    mask : m * 16 ≡ m * 4 * 4
    mask = omega arith

    shifted : a / 4 / 4 ≡ a / 16
    shifted = omega arith

bit_and_0xfffff : (a : ℕ) → bit_and a 0xfffff ≡ a % 2 ^ 20
bit_and_0xfffff a = omega (arith, nibble a 0xffff, bit_and_65535 (a / 16))

pub bit_and_page : (a : ℕ) → a < 2 ^ 32 → bit_and a 0xfffff000 ≡ a / 4096 * 4096
bit_and_page a h = omega (
  arith,
  high_nibble a 0xfffff00,
  high_nibble (a / 16) 0xfffff0,
  high_nibble (a / 16 / 16) 0xfffff,
  bit_and_0xfffff (a / 16 / 16 / 16),
)

-- `base | low` is a sum where `low` lies below the digits of `base`.
or_step : (a b : ℕ) → bit_or (a * 2) b ≡ bit_or a (b / 2) * 2 + b % 2
or_step a b = omega (arith, bit_or-halves (a * 2) b, ap (λ (t : ℕ). bit_or t (b / 2)) halved)
  where
    halved : a * 2 / 2 ≡ a
    halved = omega arith

or_two : (a b : ℕ) → bit_or (a * 4) b ≡ bit_or a (b / 4) * 4 + b % 4
or_two a b = omega (
  arith,
  or_step (a * 2) b,
  or_step a (b / 2),
  ap (λ (t : ℕ). bit_or t b) base,
  ap (bit_or a) shifted,
)
  where
    base : a * 4 ≡ a * 2 * 2
    base = omega arith

    shifted : b / 2 / 2 ≡ b / 4
    shifted = omega arith

or_nibble : (a b : ℕ) → bit_or (a * 16) b ≡ bit_or a (b / 16) * 16 + b % 16
or_nibble a b = omega (
  arith,
  or_two (a * 4) b,
  or_two a (b / 4),
  ap (λ (t : ℕ). bit_or t b) base,
  ap (bit_or a) shifted,
)
  where
    base : a * 16 ≡ a * 4 * 4
    base = omega arith

    shifted : b / 4 / 4 ≡ b / 16
    shifted = omega arith

pub bit_or_low_nibble : (a b : ℕ) → b < 16 → bit_or (a * 16) b ≡ a * 16 + b
bit_or_low_nibble a b h = omega (arith, or_nibble a b, ap (bit_or a) gone, bit_or-zero a)
  where
    gone : b / 16 ≡ 0
    gone = omega arith

pub bit_or_page : (a b : ℕ) → b < 4096 → bit_or (a * 4096) b ≡ a * 4096 + b
bit_or_page a b h = omega (
  arith,
  or_nibble (a * 256) b,
  or_nibble (a * 16) (b / 16),
  bit_or_low_nibble a (b / 16 / 16) (omega arith),
  ap (λ (t : ℕ). bit_or t b) first,
  ap (λ (t : ℕ). bit_or t (b / 16)) second,
)
  where
    first : a * 4096 ≡ a * 256 * 16
    first = omega arith

    second : a * 256 ≡ a * 16 * 16
    second = omega arith

-- `x | 2` sets digit 1.
pub bit_or_two : (x : ℕ) → bit_or x 2 ≡ x / 4 * 4 + 2 + x % 2
bit_or_two x = omega (arith, bit_or-halves x 2, bit_or-halves (x / 2) 1, bit_or-zero (x / 2 / 2))
