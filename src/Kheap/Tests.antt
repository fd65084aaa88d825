-- ===== src/Kheap/Tests.antt =====
-- The theorems of kheap.c at concrete states, and tests.
use native.Mathlib.Decide.{ℕ_discrete}
use simple_microkernel.Base.{ℕ, ◌≡◌, inl, inr, refl, ◌==◌, if◌then◌else◌, Bool-cases, ==→eq, arith}
use simple_microkernel.Pmm.{
  Pmm, memory_map_test, allocate_first_n_blocks, get_first_n_blocks, first_n_from, check_range,
}
use simple_microkernel.Pmm.Valid.{IsValid}
use simple_microkernel.Pmm.Count.{count_free}
use simple_microkernel.Kheap.{Heap, empty_slot, kmallac, blocks_to_allocate, kfree}
use simple_microkernel.Kheap.Valid.{HeapIsValid, OwnsRun}
use simple_microkernel.Kheap.Big.{
  BigAllocated, BigFreed, RunExists, run_entry, kmallac-BigAllocated, kfree-BigFreed,
}
use simple_microkernel.Kheap.RoundTrip.{SameHeap, kmallac_then_kfree, kfree-kmallac}

-- ten blocks, of which 0, 1 and 3 are used
abbrev ten : Pmm
ten = record {
  memory_map = λ w. if w == 0 then 11 else 0;
  used_blocks = 3;
  free_blocks = 7;
  system_memory_size = 10;
}

-- no big block
abbrev plain : Heap
plain = record { pmm = ten; big_blocks = λ i. empty_slot }

-- block 3 is a run of the table
abbrev one_run : Heap
one_run = record { pmm = ten; big_blocks = λ i. if i == 0 then run_entry 3 1 else empty_slot }

ten-IsValid : IsValid ten
unfolding memory_map_test count_free
ten-IsValid = record { in_4gb = omega arith; split = refl; counted = refl; reserved = refl }

plain-IsValid : HeapIsValid plain
plain-IsValid = record {
  pmm_valid = ten-IsValid;
  table_valid = record { owns = λ i u. absurd (u.1 refl); apart = λ i j ne u. absurd (u.1 refl) };
}

owns_three : OwnsRun ten (run_entry 3 1)
unfolding memory_map_test
owns_three = record {
  aligned = refl;
  not_reserved = omega arith;
  some_blocks = omega arith;
  inside = omega arith;
  used = λ j a b. let e : 3 ≡ j = omega arith in rw (← e);
}

one_run-IsValid : HeapIsValid one_run
one_run-IsValid = record {
  pmm_valid = ten-IsValid;
  table_valid = record {
    owns = λ i. elim (Bool-cases (i == 0)) [
      | inl e ↦ rw e (λ u. owns_three)
      | inr e ↦ rw e (λ u. absurd (u.1 refl))
    ];
    apart = λ i j ne. elim (Bool-cases (i == 0)) [
      | inl e ↦ elim (Bool-cases (j == 0)) [
        | inl f ↦ absurd (ne (omega (arith, ==→eq i 0 e, ==→eq j 0 f)))
        | inr f ↦ rw f (λ u w. absurd (w.1 refl))
      ]
      | inr e ↦ rw e (λ u. absurd (u.1 refl))
    ];
  };
}

-- two blocks from block 4 on, entered in the first slot
two_blocks : (kmallac plain 5000).0 ≡ 16384
unfolding kmallac allocate_first_n_blocks get_first_n_blocks first_n_from check_range
    memory_map_test
two_blocks = refl

free_four : RunExists ten 2
unfolding memory_map_test
free_four = (
  4,
  omega arith,
  omega arith,
  λ j a b. elim (ℕ_discrete j 4) [ yes e ↦ rw e | no ne ↦ let e : j ≡ 5 = omega arith in rw e ],
)

kmallac-BigAllocated_example :
    (s : ℕ) × (k : ℕ) × BigAllocated plain (blocks_to_allocate 5000) s k (kmallac plain 5000)
unfolding blocks_to_allocate
kmallac-BigAllocated_example =
    kmallac-BigAllocated 5000 plain-IsValid (omega arith) (omega arith) free_four
      (0, omega arith, refl)

kfree-BigFreed_example : BigFreed one_run 0 (kfree one_run 12288)
kfree-BigFreed_example = kfree-BigFreed one_run-IsValid 0 (omega arith, omega arith)

kfree-kmallac_example : SameHeap plain (kmallac_then_kfree plain 5000)
unfolding blocks_to_allocate
kfree-kmallac_example =
    kfree-kmallac 5000 plain-IsValid (omega arith) (omega arith) free_four (0, omega arith, refl)
