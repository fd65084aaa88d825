-- ===== src/Kheap/RoundTrip.antt =====
-- kfree undoes a big kmallac.
use native.Mathlib.Decide.{dec_le}
use simple_microkernel.Base.{
  ℕ, ◌+◌, ◌%◌, ◌^◌, ◌≤◌, ◌<◌, ◌≡◌, inl, inr, ◌∙◌, sym, ap, update, update_lem, update_self, arith,
  subst,
}
use simple_microkernel.Pmm.{memory_map_test, free_block}
use simple_microkernel.Pmm.Valid.{size-free_block}
use simple_microkernel.Pmm.Allocate.{free_block-Allocated, free_block-Allocated-IsValid}
use simple_microkernel.Kheap.{BigAddress, Heap, empty_slot, blocks_to_allocate, kmallac, kfree}
use simple_microkernel.Kheap.Release.{RunFreed}
use simple_microkernel.Kheap.Valid.{
  first_block, InUse, TableIsValid, HeapIsValid, TableIsValid-mono,
}
use simple_microkernel.Kheap.Big.{
  BigAllocated, BigFreed, RunExists, SlotExists, run_entry, kmallac-BigAllocated, kfree-BigFreed,
}
use simple_microkernel.Kheap.Small.{
  SmallAllocated, NotBig, kmallac-SmallAllocated, kfree-free_block,
}

-- the heap after a request has been granted and given back
abbrev pub kmallac_then_kfree : Heap → ℕ → Heap
kmallac_then_kfree h size = let (addr, g) = kmallac h size in kfree g addr

-- Two heaps with the same blocks in use, the same counter and the same addresses in the table.
pub record SameHeap (h g : Heap) : Type 0 where
  pub entries : (j : ℕ) → memory_map_test g.pmm j ≡ memory_map_test h.pmm j
  pub free : g.pmm.free_blocks ≡ h.pmm.free_blocks
  pub addresses : (i : ℕ) → (g.big_blocks i).starting_address ≡ (h.big_blocks i).starting_address
  pub valid : HeapIsValid g

module _ {h : Heap} {n s k : ℕ} {r : ℕ × Heap} (b : BigAllocated h n s k r) where
  slot-entry : r.1.big_blocks k ≡ run_entry s n
  slot-entry = rw b.table (update_self h.big_blocks k (run_entry s n))

  slot-address : (r.1.big_blocks k).starting_address ≡ r.0
  slot-address = rw slot-entry (sym b.run.address)

  slot-InUse : InUse r.1.big_blocks k
  slot-InUse =
      (b.slot.below, λ e. absurd (omega (arith, slot-address, b.run.address, b.run.run.above)))

  slot-block : first_block (r.1.big_blocks k) ≡ s
  slot-block = omega (arith, slot-address, b.run.address)

  BigFreed-SameHeap : {g : Heap} → BigFreed r.1 k g → SameHeap h g
  BigFreed-SameHeap {g} f =
      let freed : RunFreed r.1.pmm s n g.pmm =
        rw (slot-block, ap BigAddress.blocks slot-entry) at f.blocks in
      record {
        entries = λ j. elim (dec_le s j) [
          | yes above ↦ elim (dec_le (s + n) j) [
            | yes after ↦ freed.kept j (inr after) ∙ b.run.kept j (inr after)
            | no within ↦
                freed.freed j above (omega arith) ∙ sym (b.run.run.free j above (omega arith))
          ]
          | no before ↦ freed.kept j (inl (omega arith)) ∙ b.run.kept j (inl (omega arith))
        ];
        free = omega (arith, freed.free, b.run.free);
        addresses = λ i.
            rw (f.table, b.table)
              (ground (
                arith,
                update_lem (update h.big_blocks k (run_entry s n)) k empty_slot i,
                update_lem h.big_blocks k (run_entry s n) i,
                b.slot.holds,
              ));
        valid = f.valid;
      }

-- kfree of the address that a kmallac of more than 4096 bytes has just returned gives back every
-- block and the addresses of the table, and keeps the invariant, if the request could be granted.
pub kfree-kmallac :
    {h : Heap} (size : ℕ)
    → HeapIsValid h
    → 4096 < size
    → size < 2 ^ 32
    → RunExists h.pmm (blocks_to_allocate size)
    → SlotExists h.big_blocks
    → SameHeap h (kmallac_then_kfree h size)
kfree-kmallac {h} size v big small exists slot =
    let (s, k, b) = kmallac-BigAllocated size v big small exists slot in
    BigFreed-SameHeap b (
      subst (λ a. BigFreed (kmallac h size).1 k (kfree (kmallac h size).1 a)) (slot-address b)
        (kfree-BigFreed b.valid k (slot-InUse b)))

-- The block of a small request starts no run of the table.
SmallAllocated-NotBig :
    {h : Heap} {k : ℕ} {r : ℕ × Heap} → HeapIsValid h → SmallAllocated h k r → NotBig r.1 r.0
SmallAllocated-NotBig {h} {k} {r} v sm j l u e =
    let address = sm.block.address in
    let holds : (h.big_blocks j).starting_address ≡ r.0 =
      ap (λ (b : ℕ → BigAddress). (b j).starting_address) (sym sm.table) ∙ e in
    let in_use : InUse h.big_blocks j =
      (u, λ z. absurd (omega (arith, sm.block.not_reserved, holds))) in
    let owned = v.table_valid.owns j in_use in
    absurd (
      omega
        (arith, owned.used k (omega arith) (omega (arith, owned.some_blocks)), sm.block.first.free))

-- kfree of the address that a kmallac of at most 4096 bytes has just returned gives back the block
-- and leaves the table alone, and keeps the invariant, if a block was free.
pub kfree-kmallac_small :
    {h : Heap} (size : ℕ)
    → HeapIsValid h
    → size ≤ 4096
    → 0 < h.pmm.free_blocks
    → SameHeap h (kmallac_then_kfree h size)
kfree-kmallac_small {h} size v small some_free =
    let (k, sm) = kmallac-SmallAllocated size v small some_free in
    let (entries, free, used) = free_block-Allocated sm.block in
    let aligned : (kmallac h size).0 % 4096 ≡ 0 = omega (arith, sm.block.address) in
    let same = size-free_block (kmallac h size).1.pmm (kmallac h size).0 ∙ sm.block.size in
    rw (kfree-free_block (kmallac h size).1 (kmallac h size).0 aligned (SmallAllocated-NotBig v sm))
      (record {
        entries = entries;
        free = free;
        addresses = λ i. ap (λ (b : ℕ → BigAddress). (b i).starting_address) sm.table;
        valid = record {
          pmm_valid = free_block-Allocated-IsValid sm.block;
          table_valid =
              subst (TableIsValid (free_block (kmallac h size).1.pmm (kmallac h size).0))
                (sym sm.table)
                (TableIsValid-mono {p = h.pmm} (λ j u. entries j ∙ u) same v.table_valid);
        };
      })
