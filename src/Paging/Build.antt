-- ===== src/Paging/Build.antt =====
-- The outer loop of paging_new_4gb: after `i` rounds the directory has `i` tables.
use native.Mathlib.Decide.{ℕ_discrete}
use simple_microkernel.Base.{
  ℕ, zero, suc, ◌+◌, ◌*◌, ◌/◌, ◌%◌, ◌^◌, ◌≤◌, ◌<◌, ◌≡◌, ◌≢◌, refl, sym, ◌∙◌, ap, Bool, true, ne→==,
  update_lem, add32, bit_or, arith, subst,
}
use simple_microkernel.Pmm.{Pmm, memory_map_test, allocate_block}
use simple_microkernel.Pmm.Valid.{IsValid}
use simple_microkernel.Pmm.Allocate.{Allocated, allocate_block-Allocated}
use simple_microkernel.Paging.{Words, add_table, add_tables}
use simple_microkernel.Paging.Entries.{frame}
use simple_microkernel.Paging.Table.{
  directory_entry, directory_entry-frame, add_table-out, add_table-entry, add_table-table,
}

module _ (D flags : ℕ) where
  abbrev dir : ℕ
  dir = D * 4096

  -- Table `j` of the directory in block `D`: a block of its own, with the identity mapping.
  pub record Table (p : Pmm) (m : Words) (j : ℕ) : Type 0 where
    pub word : m (dir + 4 * j) < 2 ^ 32
    pub used : memory_map_test p (frame m dir j) ≡ 1
    pub apart : frame m dir j ≢ D
    pub identity :
        (b : ℕ)
        → b < 1024
        → m (frame m dir j * 4096 + 4 * b) ≡ bit_or (j * 4194304 + b * 4096) flags

  pub record Built (p : Pmm) (m : Words) (i : ℕ) : Type 0 where
    pub valid : IsValid p
    pub directory_used : memory_map_test p D ≡ 1
    pub directory_inside : D < 2 ^ 20
    pub tables : (j : ℕ) → j < i → Table p m j
    pub distinct : (j l : ℕ) → j < i → l < i → frame m dir j ≡ frame m dir l → j ≡ l

  -- What changes the pages in use nowhere keeps a table.
  pub Table-same :
      {p q : Pmm} {m m' : Words} (j : ℕ)
      → Table p m j
      → m' (dir + 4 * j) ≡ m (dir + 4 * j)
      → ((b : ℕ) → b < 1024 → m' (frame m dir j * 4096 + 4 * b) ≡ m (frame m dir j * 4096 + 4 * b))
      → ((x : ℕ) → memory_map_test p x ≡ 1 → memory_map_test q x ≡ 1)
      → Table q m' j
  Table-same j t entry content keep = record {
    word = rw entry t.word;
    used = rw entry (keep _ t.used);
    apart = rw entry t.apart;
    identity = λ b h. rw entry (content b h ∙ t.identity b h);
  }

  module _ {p : Pmm} {m : Words} {i k : ℕ} {r : ℕ × Pmm} (small : flags < 4096) (row : i < 1024)
      (b : Built p m i) (a : Allocated p k r) where
    abbrev m' : Words
    m' = add_table dir i (k * 4096) (i * 4194304) flags m

    k-ne-directory : k ≢ D
    k-ne-directory e =
        absurd (omega (arith, b.directory_used, a.first.free, ap (memory_map_test p) e))

    k-ne-table : (j : ℕ) → j < i → k ≢ frame m dir j
    k-ne-table j h e =
        absurd (omega (arith, (b.tables j h).used, a.first.free, ap (memory_map_test p) e))

    k-in_4gb : k < 2 ^ 20
    k-in_4gb = omega (arith, a.in_memory, b.valid.in_4gb)

    keep : (x : ℕ) → memory_map_test p x ≡ 1 → memory_map_test r.1 x ≡ 1
    keep x u = rw a.entries (ground (arith, update_lem (memory_map_test p) k 1 x))

    out : (x : ℕ) → x / 4096 ≢ k → x ≢ dir + 4 * i → m' x ≡ m x
    out =
        add_table-out k i flags (i * 4194304) dir m k-in_4gb row (omega arith)
          (omega (arith, b.directory_inside)) (λ e. k-ne-directory (omega arith))

    old-entry : (j : ℕ) → j < i → m' (dir + 4 * j) ≡ m (dir + 4 * j)
    old-entry j h = out (dir + 4 * j) (λ e. k-ne-directory (omega arith)) (omega arith)

    old-Table : (j : ℕ) → j < i → Table r.1 m' j
    old-Table j h =
        let t = b.tables j h in
        Table-same j t (old-entry j h)
          (λ c l.
            out (frame m dir j * 4096 + 4 * c) (λ e. k-ne-table j h (omega arith))
              (λ e. t.apart (omega arith)))
          keep

    new-entry : m' (dir + 4 * i) ≡ directory_entry k flags
    new-entry =
        add_table-entry k i flags (i * 4194304) dir m k-in_4gb row (omega arith)
          (omega (arith, b.directory_inside)) (λ e. k-ne-directory (omega arith))

    new-frame : frame m' dir i ≡ k
    new-frame = rw new-entry (directory_entry-frame k flags k-in_4gb small).0

    new-Table : Table r.1 m' i
    new-Table = record {
      word = rw new-entry (directory_entry-frame k flags k-in_4gb small).1;
      used = rw (new-frame, a.entries) (ground (arith, update_lem (memory_map_test p) k 1 k));
      apart = λ e. k-ne-directory (sym new-frame ∙ e);
      identity = λ c l. rw new-frame (
          add_table-table k i flags (i * 4194304) dir m k-in_4gb row (omega arith)
            (omega (arith, b.directory_inside)) (λ e. k-ne-directory (omega arith)) c l
          ∙ ap (λ (x : ℕ). bit_or x flags) (omega arith));
    }

    old-frame : (j : ℕ) → j < i → frame m' dir j ≡ frame m dir j
    old-frame j h = ap (λ (x : ℕ). x / 4096) (old-entry j h)

    new-ne-old : (j : ℕ) → j < i → frame m' dir i ≢ frame m' dir j
    new-ne-old j h e = k-ne-table j h (sym new-frame ∙ (e ∙ old-frame j h))

    pub Built-suc : Built r.1 m' (suc i)
    Built-suc = record {
      valid = a.valid;
      directory_used = keep D b.directory_used;
      directory_inside = b.directory_inside;
      tables = λ j h. elim (ℕ_discrete j i) [
        | yes same ↦ rw same new-Table
        | no other ↦ old-Table j (omega arith)
      ];
      distinct = λ j l h g e. elim (ℕ_discrete j i) [
        | yes last ↦ elim (ℕ_discrete l i) [
          | yes both ↦ omega arith
          | no old ↦
              absurd
                (new-ne-old l (omega arith) (subst (λ x. frame m' dir x ≡ frame m' dir l) last e))
        ]
        | no other ↦ elim (ℕ_discrete l i) [
          | yes last ↦ absurd (
              new-ne-old j (omega arith)
                (sym (subst (λ x. frame m' dir j ≡ frame m' dir x) last e)))
          | no both ↦
              b.distinct j l (omega arith) (omega arith)
                (sym (old-frame j (omega arith)) ∙ (e ∙ old-frame l (omega arith)))
        ]
      ];
    }

  -- With a free block for each table the loop ends with a directory of 1024 tables.
  pub record Done (p : Pmm) (rounds : ℕ) (r : Bool × Pmm × Words) : Type 0 where
    pub done : r.0 ≡ true
    pub built : Built r.1 r.2 1024
    pub free : r.1.free_blocks + rounds ≡ p.free_blocks

module _ (D flags : ℕ) (small : flags < 4096) where
  add_tables-round :
      {p : Pmm} {k : ℕ} (m : Words) (i offset rounds : ℕ)
      → Allocated p k (allocate_block p)
      → offset ≡ i * 4194304
      → let (entry, q) = allocate_block p in
        add_tables (dir D flags) flags p m i offset (suc rounds)
        ≡ add_tables
            (dir D flags)
            flags
            q
            (add_table (dir D flags) i (k * 4096) (i * 4194304) flags m)
            (suc i)
            (add32 (i * 4194304) 4194304)
            rounds
  unfolding add_tables
  add_tables-round {k} m i offset rounds a o =
      rw (o, a.address, ne→== (k * 4096) 0 (omega (arith, a.not_reserved)))

  pub add_tables-Done :
      (rounds i offset : ℕ) {p : Pmm} {m : Words}
      → Built D flags p m i
      → i + rounds ≡ 1024
      → offset ≡ i * 4194304 % 2 ^ 32
      → rounds ≤ p.free_blocks
      → Done D flags p rounds (add_tables (dir D flags) flags p m i offset rounds)
  unfolding add_tables
  add_tables-Done zero i offset b h o f =
      let all : i ≡ 1024 = omega arith in
      record { done = refl; built = rw (← all) b; free = omega arith }
  add_tables-Done (suc rounds) i offset {p} {m} b h o f =
      let (k, a) = allocate_block-Allocated b.valid (omega arith) in
      let rest =
        add_tables-Done rounds (suc i) (add32 (i * 4194304) 4194304)
          (Built-suc D flags small (omega arith) b a) (omega arith) (omega arith)
          (omega (arith, a.free)) in
      rw (add_tables-round m i offset rounds a (omega arith))
        (record { done = rest.done; built = rest.built; free = omega (arith, rest.free, a.free) })
