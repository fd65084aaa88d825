-- ===== src/Pmm.antt =====
-- src/memory/pmm/pmm.c: the physical memory manager, a bitmap of 4096-byte blocks with two
-- counters. The globals are the fields of `Pmm`; a function that changes them returns the new
-- state, beside its result if it has one. A pointer is its 32-bit address.
pub mod Bitmap
pub mod Count
pub mod Valid
pub mod Allocate
pub mod Range
pub mod Run
pub mod Init
mod Tests
use simple_microkernel.Base.{
  ℕ, zero, suc, ◌+◌, ◌-◌, ◌*◌, ◌/◌, ◌%◌, ◌^◌, bit_and, bit_or, ==→eq, ltb, ◌==◌, if◌then◌else◌,
  update, array_loop, ℤ, pos, minus_one, int_value, pos_part, not_positive, not_bit, add32, sub32,
  mul32,
}

-- PMM_BLOCK_SIZE
abbrev pub block_size : ℕ
block_size = 4096

-- PMM_MAX_BLOCKS, the number of words of `pmm_memory_map`
abbrev pub max_blocks : ℕ
max_blocks = 32768

pub record Pmm : Type 0 where
  pub memory_map : ℕ → ℕ
  pub used_blocks : ℕ
  pub free_blocks : ℕ
  pub system_memory_size : ℕ

-- pmm_memory_map_set
unfoldable pub memory_map_set : Pmm → ℕ → Pmm
memory_map_set p block =
    if block == 0
    then (record p { memory_map = update p.memory_map 0 (bit_or (p.memory_map 0) (2 ^ 0)) })
    else (record p {
      memory_map =
          update p.memory_map (block / 32) (bit_or (p.memory_map (block / 32)) (2 ^ (block % 32)));
    })

-- pmm_memory_map_unset
unfoldable pub memory_map_unset : Pmm → ℕ → Pmm
memory_map_unset p block =
    if block == 0
    then (record p { memory_map = update p.memory_map 0 (bit_and (p.memory_map 0) (not_bit 0)) })
    else (record p {
      memory_map =
          update p.memory_map (block / 32)
            (bit_and (p.memory_map (block / 32)) (not_bit (block % 32)));
    })

-- pmm_memory_map_test: 1 for a used block, 0 for a free one
unfoldable pub memory_map_test : Pmm → ℕ → ℕ
memory_map_test p block =
    if block == 0
    then (if bit_and (p.memory_map 0) (2 ^ 0) == 0 then 0 else 1)
    else (if bit_and (p.memory_map (block / 32)) (2 ^ (block % 32)) == 0 then 0 else 1)

-- the loop of pmm_get_first_free_block at `i`, with `rounds` blocks left
unfoldable pub first_free_from : Pmm → ℕ → ℕ → ℤ
first_free_from p i zero = minus_one
first_free_from p i (suc rounds) =
    let rest = first_free_from p (suc i) rounds in
    if memory_map_test p i == 0 then int_value i else rest

-- pmm_get_first_free_block; the `int` of pmm_get_block_count is compared as a uint32_t
unfoldable pub get_first_free_block : Pmm → ℤ
get_first_free_block p = first_free_from p 0 p.system_memory_size

-- the end of pmm_allocate_block, once the first free block is known
unfoldable pub take_frame : Pmm → ℤ → ℕ × Pmm
take_frame p frame = if not_positive frame then (0, p) else (
  mul32 (pos_part frame) block_size,
  record (memory_map_set p (pos_part frame)) {
    free_blocks = sub32 p.free_blocks 1;
    used_blocks = add32 p.used_blocks 1;
  },
)

-- pmm_allocate_block: the address of the block, or 0
unfoldable pub allocate_block : Pmm → ℕ × Pmm
unfolding take_frame
allocate_block p = if p.free_blocks == 0 then (0, p) else take_frame p (get_first_free_block p)

-- pmm_free_block
unfoldable pub free_block : Pmm → ℕ → Pmm
free_block p ptr =
    memory_map_unset
      (record p { free_blocks = add32 p.free_blocks 1; used_blocks = sub32 p.used_blocks 1 })
      (ptr / block_size)

-- pmm_init
unfoldable pub init : Pmm → ℕ → ℕ → Pmm
init p system_memory_size memory_reserved_for_kernel =
    array_loop (λ i q. memory_map_set q i) 0 memory_reserved_for_kernel
      (record (array_loop (λ i q. memory_map_unset q i) 0 max_blocks p) {
        system_memory_size = system_memory_size;
        used_blocks = memory_reserved_for_kernel;
        free_blocks = sub32 system_memory_size memory_reserved_for_kernel;
      })

-- the loop of pmm_check_range at `i`, with `rounds` blocks left
unfoldable pub check_from : Pmm → ℕ → ℕ → ℕ
check_from p i zero = 0
check_from p i (suc rounds) =
    let rest = check_from p (suc i) rounds in if memory_map_test p i == 1 then 1 else rest

-- pmm_check_range: 1 if a block of [start, end) is used
unfoldable pub check_range : Pmm → ℕ → ℕ → ℕ
unfolding check_from
check_range p start end = check_from p start (end - start)

-- the loop of pmm_get_first_n_blocks; `rounds` is `pmm_system_memory_size - end_block`, and below
-- that size `end_block++` does not wrap
unfoldable pub first_n_from : Pmm → ℕ → ℕ → ℕ → ℕ
first_n_from p start_block end_block zero = 0
first_n_from p start_block end_block (suc rounds) =
    let rest = first_n_from p (suc start_block) (suc end_block) rounds in
    if check_range p start_block end_block == 0 then start_block else rest

-- pmm_get_first_n_blocks
unfoldable pub get_first_n_blocks : Pmm → ℕ → ℕ
get_first_n_blocks p n = first_n_from p 1 (add32 1 n) (p.system_memory_size - add32 1 n)

-- the loop of pmm_allocate_first_n_blocks, which runs before the result is tested
unfoldable pub mark_blocks : Pmm → ℕ → ℕ → Pmm
mark_blocks p start_block n =
    array_loop (λ i q. memory_map_set q i) start_block (add32 start_block n - start_block) p

-- pmm_allocate_first_n_blocks
unfoldable pub allocate_first_n_blocks : Pmm → ℕ → ℕ × Pmm
allocate_first_n_blocks p n =
    let start_block = get_first_n_blocks p n in
    let q = mark_blocks p start_block n in
    if start_block == 0 then (0, q) else (
      mul32 start_block block_size,
      record q { used_blocks = add32 q.used_blocks n; free_blocks = sub32 q.free_blocks n },
    )
