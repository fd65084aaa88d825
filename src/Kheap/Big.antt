-- ===== src/Kheap/Big.antt =====
-- Requests of more than one block: kmallac takes a run and remembers it, kfree gives it back.
use native.Mathlib.Decide.{dec_le, ℕ_discrete}
use simple_microkernel.Base.{
  ℕ, ◌+◌, ◌*◌, ◌%◌, ◌^◌, ◌≤◌, ◌<◌, ◌≡◌, ◌≢◌, inl, inr, refl, ◌∙◌, sym, ap, ne→==, lt→ltb, eq→==,
  subst, update, arith, pos,
}
use simple_microkernel.Pmm.{Pmm, block_size, memory_map_test, allocate_first_n_blocks}
use simple_microkernel.Pmm.Range.{AllFree}
use simple_microkernel.Pmm.Run.{RunAllocated, allocate_first_n_blocks-cases}
use simple_microkernel.Kheap.{
  BigAddress, Heap, big_address_count, empty_slot, search_from, search_address, insert_at,
  insert_in_big_blocks, free_run, free_big_blocks, blocks_to_allocate, kmallac_big, kmallac, kfree,
}
use simple_microkernel.Kheap.Search.{IsSlot, search_from-Searched, search_address-Searched}
use simple_microkernel.Kheap.Release.{RunFreed, free_run-RunFreed}
use simple_microkernel.Kheap.Valid.{
  first_block, OwnsRun, InUse, TableIsValid, HeapIsValid, insert-TableIsValid, remove-TableIsValid,
}

-- The number of blocks is the smallest that holds `size` bytes.
pub blocks_to_allocate_lem :
    (size : ℕ)
    → 0 < size
    → (size ≤ blocks_to_allocate size * block_size)
      × (blocks_to_allocate size * block_size < size + block_size)
unfolding blocks_to_allocate
blocks_to_allocate_lem size h = ground arith

abbrev pub run_entry : ℕ → ℕ → BigAddress
run_entry s n = record { starting_address = s * block_size; blocks = n }

-- The outcome of a big allocation: the run from block `s`, remembered in slot `k`.
pub record BigAllocated (h : Heap) (n s k : ℕ) (r : ℕ × Heap) : Type 0 where
  pub run : RunAllocated h.pmm n s (r.0, r.1.pmm)
  pub slot : IsSlot h.big_blocks 0 0 big_address_count k
  pub table : r.1.big_blocks ≡ update h.big_blocks k (run_entry s n)
  pub valid : HeapIsValid r.1

-- some run of `n` blocks that the search looks at is free
abbrev pub RunExists : Pmm → ℕ → Type 0
RunExists p n =
    (j : ℕ) × (1 ≤ j) × (j + n < p.system_memory_size) × AllFree (memory_map_test p) j (j + n)

-- some slot of the table is empty
abbrev pub SlotExists : (ℕ → BigAddress) → Type 0
SlotExists b = (i : ℕ) × (i < big_address_count) × ((b i).starting_address ≡ 0)

module _ {h : Heap} (v : HeapIsValid h) (n : ℕ) (some : 0 < n) where
  free_run_taken :
      n + 1 < 2 ^ 32
      → RunExists h.pmm n
      → (s : ℕ) × RunAllocated h.pmm n s (allocate_first_n_blocks h.pmm n)
  free_run_taken small (j, a, b, all) = elim (allocate_first_n_blocks-cases n v.pmm_valid small) [
    | inl taken ↦ taken
    | inr (failed, used) ↦ let (i, l, r, u) = used j a b in absurd (omega (arith, all i l r))
  ]

  found_empty :
      SlotExists h.big_blocks
      → (k : ℕ) × (search_from h.big_blocks 0 0 big_address_count ≡ pos k)
        × IsSlot h.big_blocks 0 0 big_address_count k
  found_empty (i, l, e) = elim (search_from-Searched h.big_blocks 0 0 big_address_count) [
    | inl found ↦ found
    | inr (r, none_there) ↦ absurd (none_there i (omega arith) l e)
  ]

  insert-HeapIsValid :
      (s k : ℕ) {a : ℕ × Pmm}
      → RunAllocated h.pmm n s a
      → TableIsValid a.1 (update h.big_blocks k (run_entry s n))
  insert-HeapIsValid s k r =
      let block : first_block (run_entry s n) ≡ s = omega arith in
      insert-TableIsValid k (run_entry s n) v.table_valid
        (record {
          aligned = omega arith;
          not_reserved = omega (arith, r.run.above);
          some_blocks = some;
          inside = omega (arith, r.run.inside, r.size);
          used = λ j a b. r.taken j (omega arith) (omega arith);
        })
        (λ j a b. r.run.free j (omega arith) (omega arith))
        (λ j u. elim (dec_le s j) [
          | yes a ↦ elim (dec_le (s + n) j) [
            | yes after ↦ r.kept j (inr after) ∙ u
            | no within ↦ r.taken j a (omega arith)
          ]
          | no before ↦ r.kept j (inl (omega arith)) ∙ u
        ])
        r.size

  -- the heap after the run has been entered in slot `k`
  abbrev entered : ℕ → ℕ × Pmm → ℕ × Heap
  entered k a = (
    a.0,
    record {
      pmm = a.1;
      big_blocks = update h.big_blocks k (record { starting_address = a.0; blocks = n });
    },
  )

  kmallac_big-entered :
      (k : ℕ)
      → (allocate_first_n_blocks h.pmm n).0 ≢ 0
      → search_from h.big_blocks 0 0 big_address_count ≡ pos k
      → kmallac_big h n ≡ entered k (allocate_first_n_blocks h.pmm n)
  unfolding kmallac_big insert_in_big_blocks insert_at
  kmallac_big-entered k ne found = rw (ne→== _ 0 ne, found)

  entered-BigAllocated :
      (s k : ℕ) {a : ℕ × Pmm}
      → RunAllocated h.pmm n s a
      → IsSlot h.big_blocks 0 0 big_address_count k
      → BigAllocated h n s k (entered k a)
  entered-BigAllocated s k {a} r is =
      let table : (entered k a).1.big_blocks ≡ update h.big_blocks k (run_entry s n) =
        ap (λ (x : ℕ). update h.big_blocks k (record { starting_address = x; blocks = n }))
          r.address in
      record {
        run = r;
        slot = is;
        table = table;
        valid = record {
          pmm_valid = r.valid;
          table_valid = subst (TableIsValid a.1) (sym table) (insert-HeapIsValid s k r);
        };
      }

  kmallac_big-BigAllocated :
      n + 1 < 2 ^ 32
      → RunExists h.pmm n
      → SlotExists h.big_blocks
      → (s : ℕ) × (k : ℕ) × BigAllocated h n s k (kmallac_big h n)
  kmallac_big-BigAllocated small exists slot =
      let (s, r) = free_run_taken small exists in
      let (k, found, is) = found_empty slot in
      (
        s,
        k,
        rw (kmallac_big-entered k (omega (arith, r.address, r.run.above)) found)
            (entered-BigAllocated s k r is),
      )

-- kmallac of more than 4096 bytes takes the first run of as many blocks as hold them, enters it in
-- the first empty slot of the table and keeps the heap's invariant, if there is such a run and such
-- a slot.
pub kmallac-BigAllocated :
    {h : Heap} (size : ℕ)
    → HeapIsValid h
    → 4096 < size
    → size < 2 ^ 32
    → RunExists h.pmm (blocks_to_allocate size)
    → SlotExists h.big_blocks
    → (s : ℕ) × (k : ℕ) × BigAllocated h (blocks_to_allocate size) s k (kmallac h size)
unfolding kmallac
kmallac-BigAllocated size v big small exists slot =
    let enough = blocks_to_allocate_lem size (omega arith) in
    rw (lt→ltb 4096 size big)
      (kmallac_big-BigAllocated v (blocks_to_allocate size) (omega arith) (omega arith) exists slot)

-- What kfree does to the run of slot `k`.
pub record BigFreed (h : Heap) (k : ℕ) (g : Heap) : Type 0 where
  pub blocks : RunFreed h.pmm (first_block (h.big_blocks k)) (h.big_blocks k).blocks g.pmm
  pub table : g.big_blocks ≡ update h.big_blocks k empty_slot
  pub valid : HeapIsValid g

module _ {h : Heap} (v : HeapIsValid h) (k : ℕ) (u : InUse h.big_blocks k) where
  abbrev addr : ℕ
  addr = (h.big_blocks k).starting_address

  abbrev owned : OwnsRun h.pmm (h.big_blocks k)
  owned = v.table_valid.owns k u

  -- No other slot holds the same address.
  search_address_unique : search_address h addr ≡ pos k
  search_address_unique = elim (search_address-Searched h addr) [
    | inl (j, r, is) ↦ elim (ℕ_discrete j k) [
      | yes same ↦ r ∙ ap pos same
      | no other ↦
          let in_use : InUse h.big_blocks j = (is.below, λ e. u.1 (sym is.holds ∙ e)) in
          absurd (
            omega (
              arith,
              is.holds,
              owned.some_blocks,
              (v.table_valid.owns j in_use).some_blocks,
              v.table_valid.apart j k other in_use u,
            ))
    ]
    | inr (r, none_there) ↦ absurd (none_there k (omega arith) u.0 refl)
  ]

  kfree-found : kfree h addr ≡ record {
    pmm = free_run addr (h.big_blocks k).blocks h.pmm;
    big_blocks = update h.big_blocks k empty_slot;
  }
  unfolding kfree free_big_blocks
  kfree-found =
      rw (eq→== (addr % 4096) 0 (omega (arith, owned.aligned)), search_address_unique)
        (rw search_address_unique)

  freed-RunFreed :
      RunFreed h.pmm
        (first_block (h.big_blocks k))
        (h.big_blocks k).blocks
        (free_run addr (h.big_blocks k).blocks h.pmm)
  freed-RunFreed =
      subst
        (λ x.
          RunFreed h.pmm (first_block (h.big_blocks k)) (h.big_blocks k).blocks
            (free_run x (h.big_blocks k).blocks h.pmm))
        (sym owned.aligned)
        (free_run-RunFreed (first_block (h.big_blocks k)) (h.big_blocks k).blocks v.pmm_valid
          owned.not_reserved owned.inside owned.used)

  -- kfree of the address in a slot that is in use frees exactly the blocks of that run, empties the
  -- slot and keeps the heap's invariant.
  pub kfree-BigFreed : BigFreed h k (kfree h addr)
  kfree-BigFreed = rw kfree-found (record {
    blocks = freed-RunFreed;
    table = refl;
    valid = record {
      pmm_valid = freed-RunFreed.valid;
      table_valid =
          remove-TableIsValid k empty_slot refl v.table_valid u freed-RunFreed.kept
            freed-RunFreed.size;
    };
  })
