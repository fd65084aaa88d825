-- ===== src/Kheap/Valid.antt =====
-- The heap's invariant: each entry of the table owns a run of used blocks, and no two share one.
use simple_microkernel.Base.{
  ℕ, ◌+◌, ◌*◌, ◌/◌, ◌≤◌, ◌<◌, ◌≡◌, ◌≢◌, ◌⊎◌, inl, inr, ◌∙◌, sym, update, arith, Bool-cases, ==→eq,
  ==→ne, ◌==◌,
}
use native.Mathlib.Decide.{dec_le}
use simple_microkernel.Pmm.{Pmm, block_size, memory_map_test}
use simple_microkernel.Pmm.Valid.{IsValid}
use simple_microkernel.Kheap.{BigAddress, Heap, big_address_count}
use simple_microkernel.Kheap.Release.{AllUsed}

abbrev pub first_block : BigAddress → ℕ
first_block e = e.starting_address / block_size

pub record OwnsRun (p : Pmm) (e : BigAddress) : Type 0 where
  pub aligned : e.starting_address ≡ first_block e * block_size
  pub not_reserved : 0 < first_block e
  pub some_blocks : 0 < e.blocks
  pub inside : first_block e + e.blocks ≤ p.system_memory_size
  pub used : AllUsed (memory_map_test p) (first_block e) (first_block e + e.blocks)

abbrev pub Apart : BigAddress → BigAddress → Type 0
Apart d e = (first_block d + d.blocks ≤ first_block e) ⊎ (first_block e + e.blocks ≤ first_block d)

abbrev pub InUse : (ℕ → BigAddress) → ℕ → Type 0
InUse b i = (i < big_address_count) × ((b i).starting_address ≢ 0)

pub record TableIsValid (p : Pmm) (b : ℕ → BigAddress) : Type 0 where
  pub owns : (i : ℕ) → InUse b i → OwnsRun p (b i)
  pub apart : (i j : ℕ) → i ≢ j → InUse b i → InUse b j → Apart (b i) (b j)

pub record HeapIsValid (h : Heap) : Type 0 where
  pub pmm_valid : IsValid h.pmm
  pub table_valid : TableIsValid h.pmm h.big_blocks

-- More used blocks do not hurt.
pub OwnsRun-mono :
    {p q : Pmm} {e : BigAddress}
    → ((j : ℕ) → memory_map_test p j ≡ 1 → memory_map_test q j ≡ 1)
    → q.system_memory_size ≡ p.system_memory_size
    → OwnsRun p e
    → OwnsRun q e
OwnsRun-mono keep size o = record {
  aligned = o.aligned;
  not_reserved = o.not_reserved;
  some_blocks = o.some_blocks;
  inside = omega (arith, o.inside);
  used = λ j a b. keep j (o.used j a b);
}

pub TableIsValid-mono :
    {p q : Pmm} {b : ℕ → BigAddress}
    → ((j : ℕ) → memory_map_test p j ≡ 1 → memory_map_test q j ≡ 1)
    → q.system_memory_size ≡ p.system_memory_size
    → TableIsValid p b
    → TableIsValid q b
TableIsValid-mono keep size t = record {
  owns = λ i u. OwnsRun-mono keep size (t.owns i u);
  apart = t.apart;
}

-- A run of free blocks is apart from every run that an entry owns.
pub free-Apart :
    (p : Pmm) (d e : BigAddress)
    → OwnsRun p d
    → 0 < e.blocks
    → ((j : ℕ) → first_block e ≤ j → j < first_block e + e.blocks → memory_map_test p j ≡ 0)
    → Apart d e
free-Apart p d e o some all = elim (dec_le (first_block d + d.blocks) (first_block e)) [
  | yes before ↦ inl before
  | no not_before ↦ elim (dec_le (first_block e + e.blocks) (first_block d)) [
    | yes after ↦ inr after
    | no not_after ↦ elim (dec_le (first_block d) (first_block e)) [
      | yes le ↦ absurd (
          omega (
            arith,
            o.used (first_block e) le (omega arith),
            all (first_block e) (omega arith) (omega arith),
          ))
      | no gt ↦ absurd (
          omega (
            arith,
            o.used (first_block d) (omega arith) (omega (arith, o.some_blocks)),
            all (first_block d) (omega arith) (omega arith),
          ))
    ]
  ]
]

Apart-symm : (d e : BigAddress) → Apart d e → Apart e d
Apart-symm d e (inl h) = inr h
Apart-symm d e (inr h) = inl h

-- A new entry for a run that was free.
pub insert-TableIsValid :
    {p q : Pmm} {b : ℕ → BigAddress} (k : ℕ) (e : BigAddress)
    → TableIsValid p b
    → OwnsRun q e
    → ((j : ℕ) → first_block e ≤ j → j < first_block e + e.blocks → memory_map_test p j ≡ 0)
    → ((j : ℕ) → memory_map_test p j ≡ 1 → memory_map_test q j ≡ 1)
    → q.system_memory_size ≡ p.system_memory_size
    → TableIsValid q (update b k e)
unfolding update
insert-TableIsValid {p} {q} {b} k e t o all keep size = record {
  owns = λ i. elim (Bool-cases (i == k)) [
    | inl new ↦ rw new (λ u. o)
    | inr old ↦ rw old (λ u. OwnsRun-mono keep size (t.owns i u))
  ];
  apart = λ i j ne. elim (Bool-cases (i == k)) [
    | inl new ↦ elim (Bool-cases (j == k)) [
      | inl both ↦ absurd (ne (==→eq _ _ new ∙ sym (==→eq _ _ both)))
      | inr old ↦
          rw (new, old)
            (λ u w. Apart-symm (b j) e (free-Apart p (b j) e (t.owns j w) o.some_blocks all))
    ]
    | inr old ↦ elim (Bool-cases (j == k)) [
      | inl new ↦ rw (old, new) (λ u w. free-Apart p (b i) e (t.owns i u) o.some_blocks all)
      | inr both ↦ rw (old, both) (t.apart i j ne)
    ]
  ];
}

-- Emptying a slot frees a run that no other entry owns.
pub remove-TableIsValid :
    {p q : Pmm} {b : ℕ → BigAddress} (k : ℕ) (e : BigAddress)
    → e.starting_address ≡ 0
    → TableIsValid p b
    → InUse b k
    → ((j : ℕ)
        → (j < first_block (b k)) ⊎ (first_block (b k) + (b k).blocks ≤ j)
        → memory_map_test q j ≡ memory_map_test p j)
    → q.system_memory_size ≡ p.system_memory_size
    → TableIsValid q (update b k e)
unfolding update
remove-TableIsValid {p} {q} {b} k e empty t in_use kept size = record {
  owns = λ i. elim (Bool-cases (i == k)) [
    | inl gone ↦ rw gone (λ u. absurd (u.1 empty))
    | inr old ↦ rw old (λ u.
        let o = t.owns i u in
        let away = t.apart i k (==→ne _ _ old) u in_use in
        record {
          aligned = o.aligned;
          not_reserved = o.not_reserved;
          some_blocks = o.some_blocks;
          inside = omega (arith, o.inside);
          used = λ j l r. kept j (omega arith) ∙ o.used j l r;
        })
  ];
  apart = λ i j ne. elim (Bool-cases (i == k)) [
    | inl gone ↦ rw gone (λ u. absurd (u.1 empty))
    | inr old ↦ elim (Bool-cases (j == k)) [
      | inl gone ↦ rw (old, gone) (λ u w. absurd (w.1 empty))
      | inr both ↦ rw (old, both) (t.apart i j ne)
    ]
  ];
}
