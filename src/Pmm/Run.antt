-- ===== src/Pmm/Run.antt =====
-- `pmm_allocate_first_n_blocks`: what it marks, when it succeeds and when it fails.
use native.Mathlib.Decide.{ℕ_discrete}
use simple_microkernel.Base.{
  ℕ, zero, suc, ◌+◌, ◌-◌, ◌*◌, ◌≤◌, ◌<◌, ◌^◌, ◌≡◌, ◌⊎◌, inl, inr, refl, sym, ◌∙◌, ap, ne→==, add32,
  arith, array_loop, update_lem, mul32, sub32,
}
use simple_microkernel.Pmm.{
  Pmm, block_size, memory_map_set, memory_map_test, mark_blocks, get_first_n_blocks,
  allocate_first_n_blocks,
}
use simple_microkernel.Pmm.Bitmap.{SameCounters, set-SameCounters, test-set, test_of_map}
use simple_microkernel.Pmm.Count.{count_free, count_free-use}
use simple_microkernel.Pmm.Valid.{IsValid}
use simple_microkernel.Pmm.Range.{AllFree, SomeUsed, IsFirstRun, get_first_n_blocks-FoundRun}

-- the loop body that sets one block's entry
abbrev pub set_at : ℕ → Pmm → Pmm
set_at i q = memory_map_set q i

pub set_loop-test_out :
    (p : Pmm) (s n j : ℕ)
    → (j < s) ⊎ (s + n ≤ j)
    → memory_map_test (array_loop set_at s n p) j ≡ memory_map_test p j
unfolding array_loop
set_loop-test_out p s zero j h = refl
set_loop-test_out p s (suc n) j h =
    set_loop-test_out (memory_map_set p s) (suc s) n j (omega arith)
    ∙ rw test-set (ground (arith, update_lem (memory_map_test p) s 1 j))

pub set_loop-test_in :
    (p : Pmm) (s n j : ℕ) → s ≤ j → j < s + n → memory_map_test (array_loop set_at s n p) j ≡ 1
unfolding array_loop
set_loop-test_in p s zero j a b = absurd (omega arith)
set_loop-test_in p s (suc n) j a b = elim (ℕ_discrete s j) [
  | yes same ↦
      set_loop-test_out (memory_map_set p s) (suc s) n j (inl (omega arith))
      ∙ rw test-set (ground (arith, update_lem (memory_map_test p) s 1 j))
  | no other ↦ set_loop-test_in (memory_map_set p s) (suc s) n j (omega arith) (omega arith)
]

pub set_loop-SameCounters : (p : Pmm) (s n : ℕ) → SameCounters p (array_loop set_at s n p)
unfolding array_loop
set_loop-SameCounters p s zero = record { used = refl; free = refl; size = refl }
set_loop-SameCounters p s (suc n) =
    ground (arith, set-SameCounters p s, set_loop-SameCounters (memory_map_set p s) (suc s) n)

pub set_loop-count :
    (p : Pmm) (s n size : ℕ)
    → s + n ≤ size
    → AllFree (memory_map_test p) s (s + n)
    → count_free (memory_map_test (array_loop set_at s n p)) size + n
      ≡ count_free (memory_map_test p) size
unfolding array_loop
set_loop-count p s zero size h all = omega arith
set_loop-count p s (suc n) size h all = omega (
  arith,
  set_loop-count (memory_map_set p s) (suc s) n size (omega arith) rest,
  ap (λ (t : ℕ → ℕ). count_free t size) (test-set p s),
  count_free-use (memory_map_test p) size s (all s (omega arith) (omega arith)) (omega arith),
)
  where
    rest : AllFree (memory_map_test (memory_map_set p s)) (suc s) (suc s + n)
    rest j a b = rw (test-set) (ground (arith, update_lem (memory_map_test p) s 1 j, all j))

-- The outcome of a successful `pmm_allocate_first_n_blocks`: the run from `s` has been taken.
pub record RunAllocated (p : Pmm) (n s : ℕ) (r : ℕ × Pmm) : Type 0 where
  pub address : r.0 ≡ s * block_size
  pub run : IsFirstRun (memory_map_test p) 1 n p.system_memory_size s
  pub taken : (j : ℕ) → s ≤ j → j < s + n → memory_map_test r.1 j ≡ 1
  pub kept : (j : ℕ) → (j < s) ⊎ (s + n ≤ j) → memory_map_test r.1 j ≡ memory_map_test p j
  pub free : r.1.free_blocks + n ≡ p.free_blocks
  pub used : r.1.used_blocks ≡ p.used_blocks + n
  pub size : r.1.system_memory_size ≡ p.system_memory_size
  pub valid : IsValid r.1

-- The outcome of a failed one: 0 is returned and the counters stay, but the blocks below `n` have
-- been marked as used.
pub record RunFailed (p : Pmm) (n : ℕ) (r : ℕ × Pmm) : Type 0 where
  pub address : r.0 ≡ 0
  pub counters : SameCounters p r.1
  pub marked : (j : ℕ) → j < n → memory_map_test r.1 j ≡ 1
  pub kept : (j : ℕ) → n ≤ j → memory_map_test r.1 j ≡ memory_map_test p j

module _ {p : Pmm} (n : ℕ) (v : IsValid p) where
  abbrev marked_from : ℕ → Pmm
  marked_from s = array_loop set_at s n p

  mark_blocks-loop : (s : ℕ) → s + n < 2 ^ 32 → mark_blocks p s n ≡ marked_from s
  unfolding mark_blocks
  mark_blocks-loop s h = let rounds : add32 s n - s ≡ n = omega arith in rw rounds

  -- the state after the counters have moved too
  abbrev run_taken : ℕ → Pmm
  run_taken s = record (marked_from s) {
    used_blocks = add32 (marked_from s).used_blocks n;
    free_blocks = sub32 (marked_from s).free_blocks n;
  }

  test-run_taken : (s : ℕ) → memory_map_test (run_taken s) ≡ memory_map_test (marked_from s)
  test-run_taken s = test_of_map (run_taken s) (marked_from s) refl

  run_taken-RunAllocated :
      (s : ℕ)
      → IsFirstRun (memory_map_test p) 1 n p.system_memory_size s
      → RunAllocated p n s (mul32 s block_size, run_taken s)
  run_taken-RunAllocated s f =
      let same = set_loop-SameCounters p s n in
      let fewer = set_loop-count p s n p.system_memory_size (omega (arith, f.inside)) f.free in
      let total = v.split in
      let counted = v.counted in
      let now : sub32 (marked_from s).free_blocks n
          ≡ count_free (memory_map_test (run_taken s)) p.system_memory_size =
        rw (test-run_taken s) (omega arith) in
      record {
        address = omega (arith, f.inside, v.in_4gb);
        run = f;
        taken = λ j a b. rw test-run_taken (set_loop-test_in p s n j a b);
        kept = λ j o. rw test-run_taken (set_loop-test_out p s n j o);
        free = omega arith;
        used = omega arith;
        size = same.size;
        valid = record {
          in_4gb = omega arith;
          split = omega arith;
          counted = now ∙ ap (count_free (memory_map_test (run_taken s))) (sym same.size);
          reserved =
              rw test-run_taken
                (set_loop-test_out p s n 0 (inl (omega (arith, f.above))) ∙ v.reserved);
        };
      }

  -- `pmm_allocate_first_n_blocks` either takes the first run of `n` free blocks that ends below the
  -- last block, or finds every such run in use and returns 0.
  pub allocate_first_n_blocks-cases :
      n + 1 < 2 ^ 32
      → ((s : ℕ) × RunAllocated p n s (allocate_first_n_blocks p n))
        ⊎ (RunFailed p n (allocate_first_n_blocks p n)
            × ((j : ℕ)
                → 1 ≤ j
                → j + n < p.system_memory_size
                → SomeUsed (memory_map_test p) j (j + n)))
  unfolding allocate_first_n_blocks
  allocate_first_n_blocks-cases h = elim (get_first_n_blocks-FoundRun p n h) [
    | inl f ↦ inl (
      get_first_n_blocks p n,
      rw
          (
            ne→== (get_first_n_blocks p n) 0 (omega (arith, f.above)),
            mark_blocks-loop (get_first_n_blocks p n) (omega (arith, f.inside, v.in_4gb)),
          )
          (run_taken-RunAllocated (get_first_n_blocks p n) f),
    )
    | inr (r, used) ↦ inr (
      rw (r, mark_blocks-loop 0 (omega arith))
          (record {
            address = refl;
            counters = set_loop-SameCounters p 0 n;
            marked = λ j a. set_loop-test_in p 0 n j (omega arith) (omega arith);
            kept = λ j a. set_loop-test_out p 0 n j (inr (omega arith));
          }),
      used,
    )
  ]
