-- ===== src/Fat16/Ints.antt =====
-- The `int`s of fat16.c below 2 ^ 31, where they are the numbers of their patterns.
use native.Mathlib.Nat.{add-zero}
use simple_microkernel.Base.{
  ℕ, ◌/◌, ◌%◌, ◌^◌, ◌<◌, ◌≤◌, ◌-◌, sub32, ◌≡◌, refl, ltb, lt→ltb, pos, pos_part, int_value,
  word_value, lt_ℤ, ◌/ℤ◌, ◌%ℤ◌, arith,
}

int_value_lem : (a : ℕ) → a < 2 ^ 31 → int_value a ≡ pos a
int_value_lem a h = rw (lt→ltb a (2 ^ 31) h) refl

pub quotient_lem :
    (a s : ℕ) → a < 2 ^ 31 → s < 2 ^ 31 → pos_part (int_value a /ℤ int_value s) ≡ a / s
quotient_lem a s h k = rw (int_value_lem a h, int_value_lem s k, add-zero a, add-zero s) refl

pub remainder_lem :
    (a s : ℕ) → a < 2 ^ 31 → s < 2 ^ 31 → word_value (int_value a %ℤ int_value s) ≡ a % s % 2 ^ 32
remainder_lem a s h k = rw (int_value_lem a h, int_value_lem s k, add-zero a, add-zero s) refl

pub less_lem : (a b : ℕ) → a < 2 ^ 31 → b < 2 ^ 31 → lt_ℤ (int_value a) (int_value b) ≡ ltb a b
less_lem a b h k = rw (int_value_lem a h, int_value_lem b k, add-zero a, add-zero b) refl

pub positive_lem : (a : ℕ) → a < 2 ^ 31 → lt_ℤ (pos 0) (int_value a) ≡ ltb 0 a
positive_lem a h = rw (int_value_lem a h, add-zero a) refl

pub sub32_lem : (a b : ℕ) → b ≤ a → a < 2 ^ 32 → sub32 a b ≡ a - b
sub32_lem a b h k = omega arith
