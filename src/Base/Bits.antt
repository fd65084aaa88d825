-- ===== src/Base/Bits.antt =====
-- The binary digits of a number, and what the native bit operations do to them. Both operations
-- stand for one recursion over the digits, so their laws are proved for that recursion.
use Prim.Native.Nat.{
  ℕ, zero, suc, ◌+◌, ◌*◌, ◌/◌, ◌%◌, ◌≤◌, ◌<◌, min, max, bit_and, bit_or, digits, bit_and-bitwise,
  bit_or-bitwise,
}
use mathlib.Core.Path.{◌≡◌, refl, sym, ◌∙◌, ap}
use native.Mathlib.Omega.{arith}

-- digit `k` of `w`
unfoldable pub bit : ℕ → ℕ → ℕ
bit zero w = w % 2
bit (suc k) w = bit k (w / 2)

pub bit-lt : (k w : ℕ) → bit k w < 2
unfolding bit
bit-lt zero w = omega arith
bit-lt (suc k) w = bit-lt k (w / 2)

module _ (end : ℕ → ℕ) (op : ℕ → ℕ → ℕ) where
  -- The recursion with as much fuel as the number itself.
  abbrev run : ℕ → ℕ → ℕ
  run a b = digits end op a a b

  at_zero : (f b : ℕ) → digits end op f 0 b ≡ end b
  at_zero zero b = refl
  at_zero (suc f) b = refl

  -- Two amounts of fuel that reach the end of the first number agree.
  same_digits : (f g a b : ℕ) → a ≤ f → a ≤ g → digits end op f a b ≡ digits end op g a b
  same_digits f g zero b h k = at_zero f b ∙ sym (at_zero g b)
  same_digits zero g (suc a) b h k = absurd (omega arith)
  same_digits (suc f) zero (suc a) b h k = absurd (omega arith)
  same_digits (suc f) (suc g) (suc a) b h k =
      ap (λ (t : ℕ). t * 2 + op (suc a % 2) (b % 2))
        (same_digits f g (suc a / 2) (b / 2) (omega arith) (omega arith))

  -- One digit of the recursion, where the end of the first number is no exception.
  run_step :
      ((b : ℕ) → end b ≡ end (b / 2) * 2 + op 0 (b % 2))
      → (a b : ℕ) → run a b ≡ run (a / 2) (b / 2) * 2 + op (a % 2) (b % 2)
  run_step at_end zero b = at_end b
  run_step at_end (suc a) b =
      ap (λ (t : ℕ). t * 2 + op (suc a % 2) (b % 2))
        (same_digits a (suc a / 2) (suc a / 2) (b / 2) (omega arith) (omega arith))

pub bit_or-halves : (x y : ℕ) → bit_or x y ≡ bit_or (x / 2) (y / 2) * 2 + max (x % 2) (y % 2)
bit_or-halves x y =
    rw (bit_or-bitwise x y, bit_or-bitwise (x / 2) (y / 2))
      (run_step (λ c. c) max (λ c. omega arith) x y)

pub bit-bit_or : (k x y : ℕ) → bit k (bit_or x y) ≡ max (bit k x) (bit k y)
unfolding bit
bit-bit_or zero x y = omega (arith, bit_or-halves x y)
bit-bit_or (suc k) x y =
    ap (bit k) (omega (arith, bit_or-halves x y)) ∙ bit-bit_or k (x / 2) (y / 2)

pub bit_and-halves : (x y : ℕ) → bit_and x y ≡ bit_and (x / 2) (y / 2) * 2 + min (x % 2) (y % 2)
bit_and-halves x y =
    rw (bit_and-bitwise x y, bit_and-bitwise (x / 2) (y / 2))
      (run_step (λ c. 0) min (λ c. omega arith) x y)

pub bit-bit_and : (k x y : ℕ) → bit k (bit_and x y) ≡ min (bit k x) (bit k y)
unfolding bit
bit-bit_and zero x y = omega (arith, bit_and-halves x y)
bit-bit_and (suc k) x y =
    ap (bit k) (omega (arith, bit_and-halves x y)) ∙ bit-bit_and k (x / 2) (y / 2)

-- No digit of 0 is set.
pub zero-bit_and : (y : ℕ) → bit_and 0 y ≡ 0
zero-bit_and y = bit_and-bitwise 0 y
