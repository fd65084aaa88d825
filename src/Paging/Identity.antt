-- ===== src/Paging/Identity.antt =====
-- paging_new_4gb builds an address space that maps every page to itself.
use simple_microkernel.Base.{
  ℕ, ◌+◌, ◌*◌, ◌%◌, ◌^◌, ◌≤◌, ◌<◌, ◌≡◌, ◌≢◌, refl, ◌∙◌, ap, Bool, true, false, ne→==, update,
  update_lem, update_self, update_ne, sub32, bit_or, arith,
}
use simple_microkernel.Pmm.{Pmm, memory_map_test, allocate_block}
use simple_microkernel.Pmm.Valid.{IsValid}
use simple_microkernel.Pmm.Allocate.{Allocated, allocate_block-Allocated, allocate_block-full}
use simple_microkernel.Paging.{Words, Paging, paging_get, add_tables, new_chunk, new_4gb}
use simple_microkernel.Paging.Indexes.{directory_index, table_index}
use simple_microkernel.Paging.Entries.{IsDirectory, frame, paging_get-slot}
use simple_microkernel.Paging.Build.{Table-same, Built, add_tables-Done}

-- A directory of 1024 tables is well formed and maps each page to itself.
module _ {D flags : ℕ} {p : Pmm} {m : Words} (b : Built D flags p m 1024) where
  Built-IsDirectory : IsDirectory m (D * 4096)
  Built-IsDirectory = record {
    aligned = omega arith;
    fits = omega (arith, b.directory_inside);
    word = λ i h. (b.tables i h).word;
    apart = λ i h e. (b.tables i h).apart (omega arith);
    distinct = b.distinct;
  }

  Built-paging_get :
      (v : ℕ) → v % 4096 ≡ 0 → v < 2 ^ 32 → paging_get m (D * 4096) v ≡ bit_or v flags
  Built-paging_get v a h =
      let whole : directory_index v * 4194304 + table_index v * 4096 ≡ v = omega arith in
      paging_get-slot Built-IsDirectory v a h
      ∙ ((b.tables (directory_index v) (omega arith)).identity (table_index v) (omega arith)
          ∙ ap (λ (x : ℕ). bit_or x flags) whole)

  -- The block of the chunk is none of the directory's.
  Built-chunk :
      (c : ℕ) {q : Pmm}
      → memory_map_test p c ≡ 0
      → IsValid q
      → ((x : ℕ) → memory_map_test p x ≡ 1 → memory_map_test q x ≡ 1)
      → Built D flags q (update m (c * 4096) (D * 4096)) 1024
  Built-chunk c {q} unused v keep = record {
    valid = v;
    directory_used = keep D b.directory_used;
    directory_inside = b.directory_inside;
    tables = λ j h.
        let t = b.tables j h in
        Table-same D flags j t (entry j h)
          (λ l k.
            update_ne m (c * 4096) (D * 4096) (frame m (D * 4096) j * 4096 + 4 * l)
              (λ e. used-ne (frame m (D * 4096) j) t.used (omega arith)))
          keep;
    distinct = λ j l h k. rw (entry j h, entry l k) (b.distinct j l h k);
  }
    where
      used-ne : (x : ℕ) → memory_map_test p x ≡ 1 → x ≢ c
      used-ne x u e = absurd (omega (arith, unused, u, ap (memory_map_test p) e))

      entry :
          (j : ℕ)
          → j < 1024
          → update m (c * 4096) (D * 4096) (D * 4096 + 4 * j) ≡ m (D * 4096 + 4 * j)
      entry j h =
          update_ne m (c * 4096) (D * 4096) (D * 4096 + 4 * j)
            (λ e. used-ne D b.directory_used (omega arith))

-- The outcome of a successful paging_new_4gb.
pub record MapsItself (s : Paging) (flags : ℕ) (r : ℕ × Paging) : Type 0 where
  pub chunk : r.0 ≢ 0
  pub well_formed : IsDirectory r.1.memory (r.1.memory r.0)
  pub identity :
      (v : ℕ)
      → v % 4096 ≡ 0
      → v < 2 ^ 32
      → paging_get r.1.memory (r.1.memory r.0) v ≡ bit_or v flags
  pub valid : IsValid r.1.pmm
  pub free : r.1.pmm.free_blocks + 1026 ≡ s.pmm.free_blocks

-- the state that new_chunk returns for a finished directory
abbrev chunk_result : Paging → ℕ → Words → ℕ × Pmm → ℕ × Paging
chunk_result s directory m a = (
  a.0,
  record s { pmm = a.1; memory = update m a.0 directory; for_one_time = sub32 s.for_one_time 1 },
)

new_chunk-done :
    (s : Paging) (directory : ℕ) (r : Bool × Pmm × Words)
    → r.0 ≡ true
    → new_chunk s directory r ≡ chunk_result s directory r.2 (allocate_block r.1)
unfolding new_chunk
new_chunk-done s directory (true, p, m) h = refl
new_chunk-done s directory (false, p, m) h = cc

module _ (s : Paging) {D flags : ℕ} {p : Pmm} {m : Words} (b : Built D flags p m 1024) where
  chunk_result-MapsItself :
      {c : ℕ} {a : ℕ × Pmm}
      → Allocated p c a
      → p.free_blocks + 1025 ≡ s.pmm.free_blocks
      → MapsItself s flags (chunk_result s (D * 4096) m a)
  chunk_result-MapsItself {c} {a} al f =
      let address = al.address in
      let keep : (x : ℕ) → memory_map_test p x ≡ 1 → memory_map_test a.1 x ≡ 1 =
        λ x u. rw al.entries (ground (arith, update_lem (memory_map_test p) c 1 x)) in
      let whole = Built-chunk b c al.first.free al.valid keep in
      let stored : update m a.0 (D * 4096) a.0 ≡ D * 4096 = update_self m a.0 (D * 4096) in
      record {
        chunk = omega (arith, al.address, al.not_reserved);
        well_formed = rw (stored, address) (Built-IsDirectory whole);
        identity = rw (stored, address) (Built-paging_get whole);
        valid = al.valid;
        free = omega (arith, al.free);
      }

-- paging_new_4gb returns the address of a word that points at a well-formed directory, in which
-- every page is mapped to itself with the given flags, keeps the invariant of the physical memory
-- manager and takes 1026 blocks, if that many are free.
pub new_4gb-MapsItself :
    (s : Paging) (flags : ℕ)
    → IsValid s.pmm
    → 1026 ≤ s.pmm.free_blocks
    → flags < 256
    → MapsItself s flags (new_4gb s flags)
unfolding new_4gb
new_4gb-MapsItself s flags v f small =
    let (D, al) = allocate_block-Allocated v (omega arith) in
    let start : Built D flags (allocate_block s.pmm).1 s.memory 0 = record {
      valid = al.valid;
      directory_used = rw al.entries (update_self (memory_map_test s.pmm) D 1);
      directory_inside = omega (arith, al.in_memory, v.in_4gb);
      tables = λ j h. absurd (omega arith);
      distinct = λ j l h. absurd (omega arith);
    } in
    let done =
      add_tables-Done D flags (omega arith) 1024 0 0 start (omega arith) (omega arith)
        (omega (arith, al.free)) in
    let (c, chunk) =
      allocate_block-Allocated done.built.valid (omega (arith, al.free, done.free)) in
    rw
      (
        al.address,
        ne→== (D * 4096) 0 (omega (arith, al.not_reserved)),
        new_chunk-done s (D * 4096)
            (add_tables (D * 4096) flags (allocate_block s.pmm).1 s.memory 0 0 1024) done.done,
      )
      (chunk_result-MapsItself s done.built chunk (omega (arith, al.free, done.free)))

-- With no free block paging_new_4gb returns 0 and changes nothing.
pub new_4gb-full :
    (s : Paging) (flags : ℕ) → IsValid s.pmm → s.pmm.free_blocks ≡ 0 → new_4gb s flags ≡ (0, s)
unfolding new_4gb
new_4gb-full s flags v e = rw (allocate_block-full v e)
