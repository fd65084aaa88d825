-- ===== src/Pmm/Tests.antt =====
-- The theorems of pmm.c at concrete states, and tests.
use simple_microkernel.Base.{
  ℕ, ◌+◌, ◌*◌, ◌≤◌, ◌<◌, ◌^◌, ◌≡◌, ◌⊎◌, refl, ◌==◌, if◌then◌else◌, ltb, arith, zero-bit_and, ◌%◌,
  array_loop, update,
}
use simple_microkernel.Pmm.{
  Pmm, max_blocks, memory_map_set, memory_map_test, get_first_free_block, first_free_from,
  allocate_block, free_block, init, check_range, first_n_from, get_first_n_blocks, mark_blocks,
  allocate_first_n_blocks,
}
use simple_microkernel.Pmm.Count.{count_free}
use simple_microkernel.Pmm.Valid.{IsValid, free_block-IsValid, double_free-not_IsValid}
use simple_microkernel.Pmm.Allocate.{
  Allocated, SameBlocks, allocate_block-Allocated, free_block-allocate_block, allocate_then_free,
}
use simple_microkernel.Pmm.Range.{SomeUsed}
use simple_microkernel.Pmm.Run.{RunAllocated, RunFailed, allocate_first_n_blocks-cases}
use simple_microkernel.Pmm.Init.{init-IsValid}

-- ten blocks, of which 0, 1 and 3 are used
abbrev ten : Pmm
ten = record {
  memory_map = λ w. if w == 0 then 11 else 0;
  used_blocks = 3;
  free_blocks = 7;
  system_memory_size = 10;
}

-- two blocks, both used
abbrev two : Pmm
two = record {
  memory_map = λ w. if w == 0 then 3 else 0;
  used_blocks = 2;
  free_blocks = 0;
  system_memory_size = 2;
}

-- the memory before pmm_init, with two stale entries
abbrev stale : Pmm
stale = record {
  memory_map = λ w. if w == 0 then 12 else 0;
  used_blocks = 0;
  free_blocks = 0;
  system_memory_size = 0;
}

ten-IsValid : IsValid ten
unfolding memory_map_test count_free
ten-IsValid = record { in_4gb = omega arith; split = refl; counted = refl; reserved = refl }

two-IsValid : IsValid two
unfolding memory_map_test count_free
two-IsValid = record { in_4gb = omega arith; split = refl; counted = refl; reserved = refl }

first_is_two : (allocate_block ten).0 ≡ 8192
unfolding allocate_block get_first_free_block first_free_from memory_map_test
first_is_two = refl

run_of_three : (allocate_first_n_blocks ten 3).0 ≡ 4 * 4096
unfolding allocate_first_n_blocks get_first_n_blocks first_n_from check_range memory_map_test
run_of_three = refl

-- blocks 4 to 9 are free, but the last one is never part of a run
no_run_of_six : (allocate_first_n_blocks ten 6).0 ≡ 0
unfolding allocate_first_n_blocks get_first_n_blocks first_n_from check_range memory_map_test
no_run_of_six = refl

failed_run_marks : memory_map_test (allocate_first_n_blocks ten 6).1 2 ≡ 1
unfolding allocate_first_n_blocks get_first_n_blocks first_n_from check_range memory_map_test
    mark_blocks memory_map_set array_loop update
failed_run_marks = refl

free_block-IsValid_example :
    IsValid (free_block ten 12288)
    × ((free_block ten 12288).free_blocks ≡ 8)
    × ((free_block ten 12288).used_blocks + 1 ≡ 3)
    × (memory_map_test (free_block ten 12288) ≡ update (memory_map_test ten) 3 0)
unfolding memory_map_test
free_block-IsValid_example = free_block-IsValid 12288 ten-IsValid refl (omega arith) (omega arith)

double_free-not_IsValid_example : ¬ IsValid (free_block ten 8192)
unfolding memory_map_test
double_free-not_IsValid_example = double_free-not_IsValid 8192 ten-IsValid refl

allocate_block-Allocated_example : (k : ℕ) × Allocated ten k (allocate_block ten)
allocate_block-Allocated_example = allocate_block-Allocated ten-IsValid (omega arith)

free_block-allocate_block_example : SameBlocks ten (allocate_then_free ten)
free_block-allocate_block_example = free_block-allocate_block ten-IsValid (omega arith)

allocate_first_n_blocks-cases_example :
    ((s : ℕ) × RunAllocated ten 3 s (allocate_first_n_blocks ten 3))
    ⊎ (RunFailed ten 3 (allocate_first_n_blocks ten 3)
        × ((j : ℕ) → 1 ≤ j → j + 3 < 10 → SomeUsed (memory_map_test ten) j (j + 3)))
allocate_first_n_blocks-cases_example = allocate_first_n_blocks-cases 3 ten-IsValid (omega arith)

stale-blank : (j : ℕ) → max_blocks ≤ j → memory_map_test stale j ≡ 0
unfolding memory_map_test
stale-blank j h = ground (arith, zero-bit_and (2 ^ (j % 32)))

init-IsValid_example :
    IsValid (init stale 10 3)
    × ((j : ℕ) → memory_map_test (init stale 10 3) j ≡ (if ltb j 3 then 1 else 0))
    × ((init stale 10 3).free_blocks + 3 ≡ 10)
init-IsValid_example = init-IsValid stale 10 3 stale-blank (omega arith) (omega arith) (omega arith)
