-- ===== src/Memory/Fill.antt =====
-- What memset writes.
use native.Mathlib.Decide.{ℕ_discrete}
use simple_microkernel.Base.{
  ℕ, zero, suc, ◌+◌, ◌%◌, ◌^◌, ◌≤◌, ◌<◌, ◌≡◌, ◌⊎◌, refl, ◌∙◌, update, update_lem, array_loop, add32,
  arith,
}
use simple_microkernel.Memory.{Bytes, memset}

-- the addresses of an object of `size` bytes
abbrev pub Outside : ℕ → ℕ → ℕ → Type 0
Outside ptr size a = (a < ptr) ⊎ (ptr + size ≤ a)

module _ (ptr c : ℕ) where
  abbrev fill_at : ℕ → Bytes → Bytes
  fill_at i m = update m (add32 ptr i) (c % 256)

  fill-out :
      (m : Bytes) (i n a : ℕ)
      → ptr + i + n ≤ 2 ^ 32
      → Outside (ptr + i) n a
      → array_loop fill_at i n m a ≡ m a
  unfolding array_loop
  fill-out m i zero a h o = refl
  fill-out m i (suc n) a h o =
      fill-out (fill_at i m) (suc i) n a (omega arith) (omega arith)
      ∙ ground (arith, update_lem m (add32 ptr i) (c % 256) a)

  fill-in :
      (m : Bytes) (i n a : ℕ)
      → ptr + i + n ≤ 2 ^ 32
      → ptr + i ≤ a
      → a < ptr + i + n
      → array_loop fill_at i n m a ≡ c % 256
  unfolding array_loop
  fill-in m i zero a h l u = absurd (omega arith)
  fill-in m i (suc n) a h l u = elim (ℕ_discrete (ptr + i) a) [
    | yes same ↦
        fill-out (fill_at i m) (suc i) n a (omega arith) (omega arith)
        ∙ ground (arith, update_lem m (add32 ptr i) (c % 256) a)
    | no other ↦ fill-in (fill_at i m) (suc i) n a (omega arith) (omega arith) (omega arith)
  ]

-- memset makes every byte of the object the low byte of `c` and leaves every other byte alone, if
-- the object does not run past the end of the address space.
pub memset_lem :
    (m : Bytes) (ptr c size : ℕ)
    → ptr + size ≤ 2 ^ 32
    → ((a : ℕ) → ptr ≤ a → a < ptr + size → memset m ptr c size a ≡ c % 256)
      × ((a : ℕ) → Outside ptr size a → memset m ptr c size a ≡ m a)
unfolding memset
memset_lem m ptr c size h = (
  λ a l u. fill-in ptr c m 0 size a (omega arith) (omega arith) (omega arith),
  λ a o. fill-out ptr c m 0 size a (omega arith) (omega arith),
)
