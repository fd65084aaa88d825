-- ===== src/Process/Mapping.antt =====
-- The address space that process_map_memory gives to a process.
use simple_microkernel.Base.{
  ℕ, ◌+◌, ◌-◌, ◌*◌, ◌/◌, ◌%◌, ◌^◌, ◌≤◌, ◌<◌, ◌≡◌, ◌⊎◌, inr, refl, ◌∙◌, eq→==, ne→==, add32, bit_or,
  pos, arith,
}
use native.Mathlib.Decide.{ℕ_discrete}
use simple_microkernel.Paging.{Words, paging_get, map_to, align_address}
use simple_microkernel.Paging.Entries.{IsDirectory}
use simple_microkernel.Paging.Ranges.{RangeMapped, map_to_lem}
use simple_microkernel.Paging.Elsewhere.{InNoTable, map_to-elsewhere}
use simple_microkernel.Process.{
  Processes, page_flags, directory_of, process_map_binary, process_map_memory,
}

-- the pages that `size` bytes take up
abbrev pub pages : ℕ → ℕ
pages size = (size + 4095) / 4096

align_lem :
    (p size : ℕ)
    → p % 4096 ≡ 0
    → p + size + 4096 < 2 ^ 32
    → align_address (add32 p size) ≡ p + pages size * 4096
unfolding align_address
align_lem p size a h =
    let sum : add32 p size ≡ p + size = omega arith in
    rw sum (elim (ℕ_discrete ((p + size) % 4096) 0) [
      | yes even ↦ rw (eq→== ((p + size) % 4096) 0 even) (omega arith)
      | no odd ↦ rw (ne→== ((p + size) % 4096) 0 odd) (omega arith)
    ])

-- one call of paging_map_to for memory of `size` bytes at `p`
abbrev region : Words → ℕ → ℕ → ℕ → ℕ → Words
region m d v p size = (map_to m d v p (align_address (add32 p size)) page_flags).1

record RegionMapped (m : Words) (d chunk v p size : ℕ) (m' : Words) : Type 0 where
  range : RangeMapped m d v p page_flags (pages size) m'
  chunk_kept : m' chunk ≡ m chunk
  outside : InNoTable m' d chunk

region-RegionMapped :
    (m : Words) (d chunk v p size : ℕ)
    → IsDirectory m d
    → InNoTable m d chunk
    → v % 4096 ≡ 0
    → p % 4096 ≡ 0
    → v + size + 4096 < 2 ^ 32
    → p + size + 4096 < 2 ^ 32
    → RegionMapped m d chunk v p size (region m d v p size)
region-RegionMapped m d chunk v p size dir out a b g h =
    let end = p + pages size * 4096 in
    let whole : (end - p) / 4096 ≡ pages size = omega arith in
    let range =
      (map_to_lem d v p end page_flags dir a b (omega arith) (omega arith) (omega arith)
        (omega arith)).1 in
    let kept = λ (x : ℕ) (o : InNoTable m d x).
      map_to-elsewhere d v p end page_flags x dir a b (omega arith) (omega arith) (omega arith)
        (omega arith) o in
    rw (align_lem p size b h, region)
      (record {
        range = rw whole at range;
        chunk_kept = kept chunk out;
        outside = λ i l.
            rw (kept (d + 4 * i) (λ j k e. dir.apart j k (e ∙ omega (arith, dir.aligned))))
              (out i l);
      })

-- The program and the stack of a process lie at their virtual addresses, page by page; all other
-- pages of the process are mapped as before.
pub record ProcessMapped (m : Words) (d ptr size stack : ℕ) (m' : Words) : Type 0 where
  pub well_formed : IsDirectory m' d
  pub program :
      (k : ℕ)
      → k < pages size
      → paging_get m' d (0x400000 + k * 4096) ≡ bit_or (ptr + k * 4096) page_flags
  pub stack_pages :
      (k : ℕ) → k < 4 → paging_get m' d (0x3fb000 + k * 4096) ≡ bit_or (stack + k * 4096) page_flags
  pub kept :
      (w : ℕ)
      → w % 4096 ≡ 0
      → w < 2 ^ 32
      → (w < 0x3fb000) ⊎ ((0x3ff000 ≤ w) × (w < 0x400000)) ⊎ (0x400000 + pages size * 4096 ≤ w)
      → paging_get m' d w ≡ paging_get m d w

three_regions :
    (m m1 m2 m3 : Words) (d ptr size stack : ℕ)
    → 0x400000 + size + 4096 < 2 ^ 32
    → RangeMapped m d 0x400000 ptr page_flags (pages size) m1
    → RangeMapped m1 d 0x3fb000 stack page_flags 4 m2
    → RangeMapped m2 d 0x3fb000 stack page_flags 4 m3
    → ProcessMapped m d ptr size stack m3
three_regions m m1 m2 m3 d ptr size stack h a b c = record {
  well_formed = c.well_formed;
  program = λ k l.
      c.kept (0x400000 + k * 4096) (omega arith) (omega arith) (inr (omega arith))
      ∙ b.kept (0x400000 + k * 4096) (omega arith) (omega arith) (inr (omega arith))
      ∙ a.mapped k l;
  stack_pages = λ k l. c.mapped k l;
  kept = λ w x y o.
      c.kept w x y (omega arith) ∙ b.kept w x y (omega arith) ∙ a.kept w x y (omega arith);
}

-- process_map_memory maps the program's memory to the program's address and the 16 KB of the stack
-- below the stack's top, page by page, and leaves all other pages of the process alone, if the two
-- memories are aligned. The struct of the address space must lie outside its tables.
pub process_map_memory-ProcessMapped :
    (s : Processes) (process : ℕ)
    → IsDirectory s.words (directory_of s process)
    → InNoTable s.words
        (directory_of s process)
        (s.tasks.store (s.store process).task).page_directory
    → (s.store process).ptr % 4096 ≡ 0
    → (s.store process).stack % 4096 ≡ 0
    → 0x400000 + (s.store process).size + 4096 < 2 ^ 32
    → (s.store process).ptr + (s.store process).size + 4096 < 2 ^ 32
    → (s.store process).stack + 16384 + 4096 < 2 ^ 32
    → (m : Words) × (process_map_memory s process ≡ (pos 0, record s { words = m }))
      × ProcessMapped s.words
          (directory_of s process)
          (s.store process).ptr
          (s.store process).size
          (s.store process).stack
          m
unfolding process_map_memory process_map_binary
process_map_memory-ProcessMapped s process dir out a b g h k =
    let p = s.store process in
    let d = directory_of s process in
    let chunk = (s.tasks.store p.task).page_directory in
    let m1 = region s.words d 0x400000 p.ptr p.size in
    let m2 = region m1 d 0x3fb000 p.stack 16384 in
    let m3 = region m2 d 0x3fb000 p.stack 16384 in
    let r1 = region-RegionMapped s.words d chunk 0x400000 p.ptr p.size dir out refl a g h in
    let r2 =
      region-RegionMapped m1 d chunk 0x3fb000 p.stack 16384 r1.range.well_formed r1.outside refl b
        (omega arith) k in
    let r3 =
      region-RegionMapped m2 d chunk 0x3fb000 p.stack 16384 r2.range.well_formed r2.outside refl b
        (omega arith) k in
    let same1 : m1 chunk ≡ d = r1.chunk_kept in
    let same2 : m2 chunk ≡ d = r2.chunk_kept ∙ same1 in
    (
      m3,
      rw (same1, same2) refl,
      three_regions s.words m1 m2 m3 d p.ptr p.size p.stack g r1.range r2.range r3.range,
    )
