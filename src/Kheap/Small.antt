-- ===== src/Kheap/Small.antt =====
-- Requests of at most one block, addresses that kfree ignores, and the cleared memory of kzalloc.
use simple_microkernel.Base.{
  ℕ, ◌+◌, ◌%◌, ◌^◌, ◌≤◌, ◌<◌, ◌≡◌, ◌≢◌, inl, inr, refl, update_lem, arith, le→ltb, ne→==, eq→==,
  minus_one,
}
use simple_microkernel.Memory.{Bytes}
use simple_microkernel.Memory.Fill.{Outside, memset_lem}
use simple_microkernel.Pmm.{Pmm, memory_map_test, free_block}
use simple_microkernel.Pmm.Allocate.{Allocated, allocate_block-Allocated}
use simple_microkernel.Kheap.{Heap, big_address_count, search_address, kmallac, kfree, kzalloc}
use simple_microkernel.Kheap.Search.{Missing, search_address-Searched}
use simple_microkernel.Kheap.Valid.{HeapIsValid, TableIsValid-mono}

-- The outcome of a small request: block `k`, and the same table.
pub record SmallAllocated (h : Heap) (k : ℕ) (r : ℕ × Heap) : Type 0 where
  pub block : Allocated h.pmm k (r.0, r.1.pmm)
  pub table : r.1.big_blocks ≡ h.big_blocks
  pub valid : HeapIsValid r.1

abbrev small : Heap → ℕ × Pmm → ℕ × Heap
small h a = (a.0, record h { pmm = a.1 })

small-SmallAllocated :
    {h : Heap} {k : ℕ} {a : ℕ × Pmm}
    → HeapIsValid h
    → Allocated h.pmm k a
    → SmallAllocated h k (small h a)
small-SmallAllocated {h} {k} {a} v al = record {
  block = al;
  table = refl;
  valid = record {
    pmm_valid = al.valid;
    table_valid =
        TableIsValid-mono {p = h.pmm} {q = a.1}
          (λ j u. rw al.entries (ground (arith, update_lem (memory_map_test h.pmm) k 1 j))) al.size
          v.table_valid;
  };
}

-- kmallac of at most 4096 bytes takes the first free block, leaves the table alone and keeps the
-- heap's invariant, if a block is free.
pub kmallac-SmallAllocated :
    {h : Heap} (size : ℕ)
    → HeapIsValid h
    → size ≤ 4096
    → 0 < h.pmm.free_blocks
    → (k : ℕ) × SmallAllocated h k (kmallac h size)
unfolding kmallac
kmallac-SmallAllocated {h} size v s free =
    let (k, al) = allocate_block-Allocated v.pmm_valid free in
    (k, rw (le→ltb 4096 size s) (small-SmallAllocated v al))

-- kfree ignores an address that is not the start of a block.
pub kfree-unaligned : (h : Heap) (addr : ℕ) → addr % 4096 ≢ 0 → kfree h addr ≡ h
unfolding kfree
kfree-unaligned h addr ne = rw (ne→== (addr % 4096) 0 ne)

-- no entry of the table starts at the address
abbrev pub NotBig : Heap → ℕ → Type 0
NotBig h a = Missing h.big_blocks a 0 big_address_count

search_address-missing : (h : Heap) (a : ℕ) → NotBig h a → search_address h a ≡ minus_one
search_address-missing h a none_there = elim (search_address-Searched h a) [
  | inl (k, r, is) ↦ absurd (none_there k is.above is.below is.holds)
  | inr (r, none_at) ↦ r
]

-- kfree of a block's address that the table does not hold is pmm_free_block.
pub kfree-free_block :
    (h : Heap) (addr : ℕ)
    → addr % 4096 ≡ 0
    → NotBig h addr
    → kfree h addr ≡ record h { pmm = free_block h.pmm addr }
unfolding kfree
kfree-free_block h addr aligned not_big =
    rw (eq→== (addr % 4096) 0 aligned, search_address-missing h addr not_big)

-- kzalloc returns what kmallac returns, and clears exactly the `size` bytes from there on; where
-- kmallac fails, these are the bytes from address 0 on.
pub kzalloc_lem :
    (h : Heap) (m : Bytes) (size : ℕ)
    → (kmallac h size).0 + size ≤ 2 ^ 32
    → let (addr, g, m') = kzalloc h m size in
      (addr ≡ (kmallac h size).0)
      × (g ≡ (kmallac h size).1)
      × ((a : ℕ) → addr ≤ a → a < addr + size → m' a ≡ 0)
      × ((a : ℕ) → Outside addr size a → m' a ≡ m a)
unfolding kzalloc
kzalloc_lem h m size fits =
    let (inside, outside) = memset_lem m (kmallac h size).0 0 size fits in
    (refl, refl, inside, outside)
