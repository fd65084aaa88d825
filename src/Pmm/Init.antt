-- ===== src/Pmm/Init.antt =====
-- `pmm_init`: the state that the kernel starts from.
use native.Mathlib.Decide.{ℕ_discrete, dec_lt}
use simple_microkernel.Base.{
  ℕ, zero, suc, ◌+◌, ◌≤◌, ◌<◌, ◌^◌, ◌≡◌, ◌⊎◌, refl, sym, ◌∙◌, ap, if◌then◌else◌, arith, array_loop,
  update_lem, sub32, ltb,
}
use simple_microkernel.Pmm.{Pmm, max_blocks, memory_map_unset, memory_map_test, init}
use simple_microkernel.Pmm.Bitmap.{test-unset, test_of_map}
use simple_microkernel.Pmm.Count.{count_free}
use simple_microkernel.Pmm.Valid.{IsValid}
use simple_microkernel.Pmm.Run.{
  set_at, set_loop-test_in, set_loop-test_out, set_loop-SameCounters, set_loop-count,
}

abbrev unset_at : ℕ → Pmm → Pmm
unset_at i q = memory_map_unset q i

-- the loop over all of the array keeps a 0 and makes the entries that it passes 0
unset_loop-test :
    (p : Pmm) (s n j : ℕ)
    → ((j < s) ⊎ (s + n ≤ j) → memory_map_test p j ≡ 0)
    → memory_map_test (array_loop unset_at s n p) j ≡ 0
unfolding array_loop
unset_loop-test p s zero j h = h (omega arith)
unset_loop-test p s (suc n) j h = unset_loop-test (memory_map_unset p s) (suc s) n j (λ o.
    rw test-unset (elim (ℕ_discrete j s) [
      | yes same ↦ ground (arith, update_lem (memory_map_test p) s 0 j)
      | no other ↦ ground (arith, update_lem (memory_map_test p) s 0 j, h (omega arith))
    ]))

count_free-all : (t : ℕ → ℕ) (n : ℕ) → ((j : ℕ) → t j ≡ 0) → count_free t n ≡ n
unfolding count_free
count_free-all t zero h = refl
count_free-all t (suc n) h = ground (arith, h n, count_free-all t n h)

module _ (p : Pmm) (size reserved : ℕ)
    (blank : (j : ℕ) → max_blocks ≤ j → memory_map_test p j ≡ 0) where
  abbrev cleared : Pmm
  cleared = record (array_loop unset_at 0 max_blocks p) {
    system_memory_size = size;
    used_blocks = reserved;
    free_blocks = sub32 size reserved;
  }

  cleared-test : (j : ℕ) → memory_map_test cleared j ≡ 0
  cleared-test j =
      ap (λ (t : ℕ → ℕ). t j) (test_of_map cleared (array_loop unset_at 0 max_blocks p) refl)
      ∙ unset_loop-test p 0 max_blocks j (λ o. blank j (omega arith))

  init-eq : init p size reserved ≡ array_loop set_at 0 reserved cleared
  unfolding init
  init-eq = refl

  -- `pmm_init` establishes the invariant, with exactly the first `reserved` blocks in use, if the
  -- entries that its loop does not clear were 0 before.
  pub init-IsValid :
      1 ≤ reserved
      → reserved ≤ size
      → size ≤ 2 ^ 20
      → IsValid (init p size reserved)
        × ((j : ℕ) → memory_map_test (init p size reserved) j ≡ (if ltb j reserved then 1 else 0))
        × ((init p size reserved).free_blocks + reserved ≡ size)
  init-IsValid some_kernel fits in_4gb =
      let same = set_loop-SameCounters cleared 0 reserved in
      let fewer = set_loop-count cleared 0 reserved size (omega arith) (λ j a b. cleared-test j) in
      let all = count_free-all (memory_map_test cleared) size cleared-test in
      let now : (array_loop set_at 0 reserved cleared).free_blocks
          ≡ count_free (memory_map_test (array_loop set_at 0 reserved cleared)) size =
        omega arith in
      rw init-eq (
        record {
          in_4gb = omega arith;
          split = omega arith;
          counted =
              now
              ∙ ap (count_free (memory_map_test (array_loop set_at 0 reserved cleared)))
                  (sym same.size);
          reserved = set_loop-test_in cleared 0 reserved 0 (omega arith) (omega arith);
        },
        λ j. elim (dec_lt j reserved) [
          | yes in_kernel ↦ ground (arith, set_loop-test_in cleared 0 reserved j)
          | no outside ↦ ground (arith, set_loop-test_out cleared 0 reserved j, cleared-test j)
        ],
        omega arith,
      )
