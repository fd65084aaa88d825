-- ===== src/Fat16/Multiples.antt =====
-- Arithmetic of the clusters of a file.
use native.Mathlib.Nat.{add-zero}
use native.Mathlib.Decide.{dec_lt}
use simple_microkernel.Base.{
  ℕ, suc, ◌+◌, ◌-◌, ◌*◌, ◌/◌, ◌%◌, ◌^◌, ◌≤◌, ◌<◌, ◌≡◌, sym, ap, ◌∙◌, arith,
}

-- a multiple of a cluster, and the place in it
pub div-multiple : (q s j : ℕ) → j < s → (q * s + j) / s ≡ q
div-multiple q s j h = grind arith

pub mod-multiple : (q s j : ℕ) → j < s → (q * s + j) % s ≡ j
mod-multiple q s j h = grind arith

pub div_of_multiple : (q s : ℕ) → 0 < s → q * s / s ≡ q
div_of_multiple q s h = grind arith

pub mod_of_multiple : (q s : ℕ) → 0 < s → q * s % s ≡ 0
mod_of_multiple q s h = ap (λ (x : ℕ). x % s) (sym (add-zero (q * s))) ∙ mod-multiple q s 0 h

pub suc_times : (q s : ℕ) → suc q * s ≡ q * s + s
suc_times q s = grind arith

pub lt_suc_div : (t s : ℕ) → 0 < s → t < suc (t / s) * s
lt_suc_div t s h = grind arith

pub mul_mono : (a b n : ℕ) → a ≤ b → a * n ≤ b * n
mul_mono a b n h = grind arith

pub more_clusters : (q n s total : ℕ) → q * s + total ≤ suc n * s → s < total → suc q ≤ n
more_clusters q n s total h k = elim (dec_lt q n) [
  | yes l ↦ l
  | no g ↦ absurd (omega (arith, mul_mono (suc n) (suc q) s (omega arith), suc_times q s))
]

-- the clusters of the data area
pub cluster_le : (c n : ℕ) → c < 2 ^ 16 → (c - 2) * n ≤ 65536 * n
cluster_le c n h = mul_mono (c - 2) 65536 n (omega arith)
