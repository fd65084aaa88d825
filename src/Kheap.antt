-- ===== src/Kheap.antt =====
-- src/memory/heap/kheap.c: the kernel's heap. A request of up to one block goes to the physical
-- memory manager; a larger one takes a run of blocks, whose length a table of 100 entries
-- remembers. The allocator's state is passed on together with the memory that kzalloc clears.
pub mod Search
pub mod Release
pub mod Valid
pub mod Big
pub mod RoundTrip
pub mod Small
mod Tests
use simple_microkernel.Base.{
  ℕ, zero, suc, ◌+◌, ◌*◌, ◌/◌, ◌%◌, ltb, ◌==◌, if◌then◌else◌, update, array_loop, ℤ, pos, negsuc,
  minus_one, int_value, add32, mul32,
}
use simple_microkernel.Memory.{Bytes, memset}
use simple_microkernel.Pmm.{Pmm, block_size, allocate_block, free_block, allocate_first_n_blocks}

-- BIG_ADDRESS
abbrev pub big_address_count : ℕ
big_address_count = 100

-- struct big_address
pub record BigAddress : Type 0 where
  pub starting_address : ℕ
  pub blocks : ℕ

abbrev pub empty_slot : BigAddress
empty_slot = record { starting_address = 0; blocks = 0 }

-- `big_blocks`, and the state of the physical memory manager below it
pub record Heap : Type 0 where
  pub pmm : Pmm
  pub big_blocks : ℕ → BigAddress

-- big_blocks_init
unfoldable pub big_blocks_init : Heap → Heap
big_blocks_init h = record h {
  big_blocks = array_loop (λ i b. update b i empty_slot) 0 big_address_count h.big_blocks;
}

-- the loop of search_address, which insert_in_big_blocks runs for the address 0
unfoldable pub search_from : (ℕ → BigAddress) → ℕ → ℕ → ℕ → ℤ
search_from b item_addr i zero = minus_one
search_from b item_addr i (suc rounds) =
    let rest = search_from b item_addr (suc i) rounds in
    if (b i).starting_address == item_addr then pos i else rest

-- search_address
unfoldable pub search_address : Heap → ℕ → ℤ
search_address h item_addr = search_from h.big_blocks item_addr 0 big_address_count

-- the write of insert_in_big_blocks; a full table is left as it is
unfoldable pub insert_at : (ℕ → BigAddress) → ℤ → BigAddress → ℕ → BigAddress
insert_at b (pos i) entry = update b i entry
insert_at b (negsuc n) entry = b

-- insert_in_big_blocks, whose result is always -1
unfoldable pub insert_in_big_blocks : Heap → ℕ → ℕ → Heap
unfolding insert_at
insert_in_big_blocks h addr blocks = record h {
  big_blocks =
      insert_at h.big_blocks (search_from h.big_blocks 0 0 big_address_count)
        (record { starting_address = addr; blocks = blocks });
}

-- the loop of free_big_blocks
unfoldable pub free_run : ℕ → ℕ → Pmm → Pmm
free_run addr blocks p =
    array_loop (λ i q. free_block q (add32 addr (mul32 i block_size))) 0 blocks p

-- free_big_blocks, after the search
unfoldable pub free_big_blocks_at : Heap → ℕ → ℤ → Heap
unfolding free_run
free_big_blocks_at h addr (negsuc n) = h
free_big_blocks_at h addr (pos index) = record {
  pmm = free_run addr (h.big_blocks index).blocks h.pmm;
  big_blocks = update h.big_blocks index empty_slot;
}

-- free_big_blocks
unfoldable pub free_big_blocks : Heap → ℕ → Heap
unfolding free_big_blocks_at
free_big_blocks h addr = free_big_blocks_at h addr (search_address h addr)

-- `blocks_to_allocate`
unfoldable pub blocks_to_allocate : ℕ → ℕ
blocks_to_allocate size = if size % 4096 == 0 then size / 4096 else size / 4096 + 1

-- the branch of kmallac for more than one block
unfoldable pub kmallac_big : Heap → ℕ → ℕ × Heap
kmallac_big h blocks =
    let (addr, p) = allocate_first_n_blocks h.pmm blocks in
    if addr == 0
    then (0, record h { pmm = p })
    else (addr, insert_in_big_blocks (record h { pmm = p }) addr blocks)

-- kmallac
unfoldable pub kmallac : Heap → ℕ → ℕ × Heap
unfolding kmallac_big blocks_to_allocate
kmallac h size =
    if ltb 4096 size
    then kmallac_big h (blocks_to_allocate size)
    else (let (addr, p) = allocate_block h.pmm in (addr, record h { pmm = p }))

-- kfree, after the search
unfoldable pub kfree_found : Heap → ℕ → ℤ → Heap
kfree_found h addr (pos index) = free_big_blocks h addr
kfree_found h addr (negsuc n) = record h { pmm = free_block h.pmm addr }

-- kfree
unfoldable pub kfree : Heap → ℕ → Heap
unfolding kfree_found
kfree h addr = if addr % 4096 == 0 then kfree_found h addr (search_address h addr) else h

-- kzalloc: the memory is cleared also where the allocation has failed, from address 0 on
unfoldable pub kzalloc : Heap → Bytes → ℕ → ℕ × Heap × Bytes
kzalloc h m size = let (temp, g) = kmallac h size in (temp, g, memset m temp 0 size)
