-- ===== src/Memory/Copy.antt =====
-- What memcpy writes.
use native.Mathlib.Decide.{ℕ_discrete}
use simple_microkernel.Base.{
  ℕ, zero, suc, ◌+◌, ◌^◌, ◌≤◌, ◌<◌, ◌≡◌, ◌⊎◌, refl, ◌∙◌, ap, update, update_lem, array_loop, add32,
  arith,
}
use simple_microkernel.Memory.{Bytes, memcpy}
use simple_microkernel.Memory.Fill.{Outside}

module _ (des src : ℕ) where
  abbrev copy_at : ℕ → Bytes → Bytes
  copy_at i m = update m (add32 des i) (m (add32 src i))

  -- a copy upwards does not overwrite what it has still to read
  abbrev pub Readable : ℕ → Type 0
  Readable n = (des ≤ src) ⊎ (src + n ≤ des)

  copy-out :
      (m : Bytes) (i n a : ℕ)
      → des + i + n ≤ 2 ^ 32
      → Outside (des + i) n a
      → array_loop copy_at i n m a ≡ m a
  unfolding array_loop
  copy-out m i zero a h o = refl
  copy-out m i (suc n) a h o =
      copy-out (copy_at i m) (suc i) n a (omega arith) (omega arith)
      ∙ ground (arith, update_lem m (add32 des i) (m (add32 src i)) a)

  source : (i k n : ℕ) → i ≡ k → src + i + suc n ≤ 2 ^ 32 → add32 src i ≡ src + k
  source i k n same g = omega arith

  copy-in :
      (m : Bytes) (i n k : ℕ)
      → des + i + n ≤ 2 ^ 32
      → src + i + n ≤ 2 ^ 32
      → Readable (i + n)
      → i ≤ k
      → k < i + n
      → array_loop copy_at i n m (des + k) ≡ m (src + k)
  unfolding array_loop
  copy-in m i zero k h g r l u = absurd (omega arith)
  copy-in m i (suc n) k h g r l u = elim (ℕ_discrete i k) [
    | yes same ↦
        copy-out (copy_at i m) (suc i) n (des + k) (omega arith) (omega arith)
        ∙ ground (
          arith,
          update_lem m (add32 des i) (m (add32 src i)) (des + k),
          ap m (source i k n same g),
        )
    | no other ↦
        copy-in (copy_at i m) (suc i) n k (omega arith) (omega arith) (omega arith) (omega arith)
          (omega arith)
        ∙ ground (arith, update_lem m (add32 des i) (m (add32 src i)) (src + k))
  ]

-- memcpy makes the destination a copy of the source as it was, and leaves every other byte alone.
-- The two may overlap if the destination is not above the source.
pub memcpy_lem :
    (m : Bytes) (des src count : ℕ)
    → des + count ≤ 2 ^ 32
    → src + count ≤ 2 ^ 32
    → Readable des src count
    → ((k : ℕ) → k < count → memcpy m des src count (des + k) ≡ m (src + k))
      × ((a : ℕ) → Outside des count a → memcpy m des src count a ≡ m a)
unfolding memcpy
memcpy_lem m des src count h g r = (
  λ k u.
      copy-in des src m 0 count k (omega arith) (omega arith) (omega arith) (omega arith)
        (omega arith),
  λ a o. copy-out des src m 0 count a (omega arith) (omega arith),
)
