-- ===== src/Kheap/Release.antt =====
-- The loop of free_big_blocks returns every block of a run.
use native.Mathlib.Decide.{ℕ_discrete}
use native.Mathlib.Nat.{add-zero}
use simple_microkernel.Base.{
  ℕ, zero, suc, ◌+◌, ◌*◌, ◌/◌, ◌^◌, ◌≤◌, ◌<◌, ◌≡◌, ◌⊎◌, refl, ◌∙◌, array_loop, update, update_lem,
  add32, mul32, arith,
}
use simple_microkernel.Pmm.{Pmm, block_size, memory_map_test, free_block}
use simple_microkernel.Pmm.Valid.{IsValid, free_block-IsValid, size-free_block}
use simple_microkernel.Kheap.{free_run}

-- every block of [start, end) is used
abbrev pub AllUsed : (ℕ → ℕ) → ℕ → ℕ → Type 0
AllUsed t start end = (j : ℕ) → start ≤ j → j < end → t j ≡ 1

-- From `p` to `q` the blocks [start, end) have been freed.
pub record RunFreed (p : Pmm) (start n : ℕ) (q : Pmm) : Type 0 where
  pub freed : (j : ℕ) → start ≤ j → j < start + n → memory_map_test q j ≡ 0
  pub kept : (j : ℕ) → (j < start) ⊎ (start + n ≤ j) → memory_map_test q j ≡ memory_map_test p j
  pub free : q.free_blocks ≡ p.free_blocks + n
  pub size : q.system_memory_size ≡ p.system_memory_size
  pub valid : IsValid q

module _ (s : ℕ) where
  abbrev free_at : ℕ → Pmm → Pmm
  free_at i q = free_block q (add32 (s * block_size) (mul32 i block_size))

  -- the block that round `i` frees
  block_of_round :
      (i : ℕ) → s + i < 2 ^ 20 → add32 (s * block_size) (mul32 i block_size) / block_size ≡ s + i
  block_of_round i h = omega arith

  free_loop-RunFreed :
      (i n : ℕ) {p : Pmm}
      → IsValid p
      → 0 < s
      → s + i + n ≤ p.system_memory_size
      → AllUsed (memory_map_test p) (s + i) (s + i + n)
      → RunFreed p (s + i) n (array_loop free_at i n p)
  unfolding array_loop
  free_loop-RunFreed i zero v pos h all = record {
    freed = λ j a b. absurd (omega arith);
    kept = λ j o. refl;
    free = omega arith;
    size = refl;
    valid = v;
  }
  free_loop-RunFreed i (suc n) {p} v not_zero h all =
      let ptr = add32 (s * block_size) (mul32 i block_size) in
      let block : ptr / block_size ≡ s + i = block_of_round i (omega (arith, v.in_4gb)) in
      let used : memory_map_test p (ptr / block_size) ≡ 1 =
        rw block (all (s + i) (omega arith) (omega arith)) in
      let (w, f, u, t) = free_block-IsValid ptr v used (omega arith) (omega arith) in
      let size = size-free_block p ptr in
      let at : (j : ℕ)
          → memory_map_test (free_block p ptr) j ≡ update (memory_map_test p) (s + i) 0 j =
        λ j. rw (t, block) in
      let rest =
        free_loop-RunFreed (suc i) n w not_zero (omega arith)
          (λ j a b. at j ∙ ground (arith, update_lem (memory_map_test p) (s + i) 0 j, all j)) in
      record {
        freed = λ j a b. elim (ℕ_discrete (s + i) j) [
          | yes same ↦
              rest.kept j (omega arith)
              ∙ (at j ∙ ground (arith, update_lem (memory_map_test p) (s + i) 0 j))
          | no other ↦ rest.freed j (omega arith) (omega arith)
        ];
        kept = λ j o.
            rest.kept j (omega arith)
            ∙ (at j ∙ ground (arith, update_lem (memory_map_test p) (s + i) 0 j));
        free = omega (arith, rest.free);
        size = rest.size ∙ size;
        valid = rest.valid;
      }

-- The loop of free_big_blocks frees exactly the `n` blocks from the address on, adds their number
-- to the free counter and keeps the invariant, if all of them are used and block 0 is not one.
pub free_run-RunFreed :
    {p : Pmm} (s n : ℕ)
    → IsValid p
    → 0 < s
    → s + n ≤ p.system_memory_size
    → AllUsed (memory_map_test p) s (s + n)
    → RunFreed p s n (free_run (s * block_size) n p)
unfolding free_run
free_run-RunFreed {p} s n v not_zero h all =
    rw add-zero at (
      free_loop-RunFreed s 0 n v not_zero (omega arith)
        (λ j a b. all j (omega arith) (omega arith)))
