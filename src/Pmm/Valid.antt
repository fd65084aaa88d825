-- ===== src/Pmm/Valid.antt =====
-- The invariant of pmm.c: the counters agree with the bitmap, and block 0 is never given out.
use simple_microkernel.Base.{
  ℕ, ◌+◌, ◌/◌, ◌^◌, ◌≤◌, ◌<◌, ◌≡◌, refl, update, update_lem, arith, add32, sub32,
}
use simple_microkernel.Pmm.{Pmm, block_size, memory_map_test, free_block}
use simple_microkernel.Pmm.Bitmap.{SameCounters, unset-SameCounters, test-unset, test_of_map}
use simple_microkernel.Pmm.Count.{count_free, count_free-release, count_free-again, count_free-lt}

-- At most 4 GB, counters that add up, and a free counter that counts the free blocks.
pub record IsValid (p : Pmm) : Type 0 where
  pub in_4gb : p.system_memory_size ≤ 2 ^ 20
  pub split : p.used_blocks + p.free_blocks ≡ p.system_memory_size
  pub counted : p.free_blocks ≡ count_free (memory_map_test p) p.system_memory_size
  pub reserved : memory_map_test p 0 ≡ 1

-- the state after the two counters of `pmm_free_block` have moved
abbrev recount : Pmm → Pmm
recount p = record p { free_blocks = add32 p.free_blocks 1; used_blocks = sub32 p.used_blocks 1 }

test-recount : (p : Pmm) → memory_map_test (recount p) ≡ memory_map_test p
test-recount p = test_of_map (recount p) p refl

pub test-free_block :
    (p : Pmm) (ptr : ℕ)
    → memory_map_test (free_block p ptr) ≡ update (memory_map_test p) (ptr / block_size) 0
unfolding free_block
test-free_block p ptr = rw (test-unset, test-recount)

free_block-SameCounters : (p : Pmm) (ptr : ℕ) → SameCounters (recount p) (free_block p ptr)
unfolding free_block
free_block-SameCounters p ptr = unset-SameCounters (recount p) (ptr / block_size)

pub size-free_block :
    (p : Pmm) (ptr : ℕ) → (free_block p ptr).system_memory_size ≡ p.system_memory_size
size-free_block p ptr = (free_block-SameCounters p ptr).size

module _ {p : Pmm} (ptr : ℕ) (v : IsValid p) where
  abbrev freed_block : ℕ
  freed_block = ptr / block_size

  used_of_used :
      memory_map_test p freed_block ≡ 1 → freed_block < p.system_memory_size → 0 < p.used_blocks
  used_of_used u h = omega (
    arith,
    count_free-lt (memory_map_test p) p.system_memory_size freed_block (omega arith) h,
    v.counted,
    v.split,
  )

  -- `pmm_free_block` of a used block other than block 0 keeps the invariant, adds one to the free
  -- counter and makes that block's entry 0.
  pub free_block-IsValid :
      memory_map_test p freed_block ≡ 1
      → 0 < freed_block
      → freed_block < p.system_memory_size
      → IsValid (free_block p ptr)
        × ((free_block p ptr).free_blocks ≡ p.free_blocks + 1)
        × ((free_block p ptr).used_blocks + 1 ≡ p.used_blocks)
        × (memory_map_test (free_block p ptr) ≡ update (memory_map_test p) freed_block 0)
  free_block-IsValid u not_zero h =
      let same = free_block-SameCounters p ptr in
      let used = used_of_used u h in
      let more =
        count_free-release (memory_map_test p) p.system_memory_size freed_block (omega arith) h in
      (
        record {
          in_4gb = omega arith;
          split = omega arith;
          counted = rw (test-free_block p ptr, same.size) (omega arith);
          reserved =
              rw test-free_block (ground (arith, update_lem (memory_map_test p) freed_block 0 0));
        },
        omega arith,
        omega arith,
        test-free_block p ptr,
      )

  -- `pmm_free_block` of a block that is free already breaks the invariant.
  pub double_free-not_IsValid : memory_map_test p freed_block ≡ 0 → ¬ IsValid (free_block p ptr)
  double_free-not_IsValid u w =
      let same = free_block-SameCounters p ptr in
      let counted = w.counted in
      let again = count_free-again (memory_map_test p) p.system_memory_size freed_block u in
      let counted' = rw (test-free_block p ptr, same.size) at counted in omega arith
