-- ===== src/Vfs/Slots.antt =====
-- The free entries of the tables, and the descriptors of open files.
use simple_microkernel.Base.{
  ℕ, zero, suc, ◌+◌, ◌≤◌, ◌<◌, ◌≡◌, ◌≢◌, ◌⊎◌, inl, inr, refl, ◌∙◌, ap, lt→ltb, le→ltb, some, none,
  eq→==, ne→==, update_self, update_ne, ℤ, pos, negsuc, minus_one, arith,
}
use native.Mathlib.Decide.{ℕ_discrete}
use simple_microkernel.Kheap.{kzalloc}
use simple_microkernel.FatFile.{FileStat}
use simple_microkernel.Vfs.{
  Filesystem, FileDescriptor, Vfs, sizeof_file_descriptor, free_from, file_get_descriptor,
  take_descriptor, file_new_descriptor,
}
use simple_microkernel.Vfs.Files.{fread, fseek, fstat}

-- Entry `i` is the first one in the range that is 0.
pub record IsFirstFree (table : ℕ → ℕ) (from rounds i : ℕ) : Type 0 where
  pub low : from ≤ i
  pub high : i < from + rounds
  pub free : table i ≡ 0
  pub first : (j : ℕ) → from ≤ j → j < i → table j ≢ 0

-- All entries in the range are in use.
abbrev pub InUse : (ℕ → ℕ) → ℕ → ℕ → Type 0
InUse table from rounds = (j : ℕ) → from ≤ j → j < from + rounds → table j ≢ 0

pub free_from-cases :
    (table : ℕ → ℕ) (rounds from : ℕ)
    → ((free_from table rounds from ≡ none) × InUse table from rounds)
      ⊎ ((i : ℕ) × (free_from table rounds from ≡ some i) × IsFirstFree table from rounds i)
unfolding free_from
free_from-cases table zero from = inl (refl, λ j l h. absurd (omega arith))
free_from-cases table (suc rounds) from = elim (ℕ_discrete (table from) 0) [
  | yes free ↦ rw (eq→== (table from) 0 free) (
      inr (
        from,
        refl,
        record {
          low = omega arith;
          high = omega arith;
          free = free;
          first = λ j l h. absurd (omega arith);
        },
      ))
  | no used ↦ rw (ne→== (table from) 0 used) (elim (free_from-cases table rounds (suc from)) [
    | inl (r, all) ↦ inl (
      r,
      λ j l h. elim (ℕ_discrete from j) [
        | yes e ↦ rw (← e) used
        | no ne ↦ all j (omega arith) (omega arith)
      ],
    )
    | inr (i, r, f) ↦ inr (
      i,
      r,
      record {
        low = omega (arith, f.low);
        high = omega (arith, f.high);
        free = f.free;
        first = λ j l h. elim (ℕ_discrete from j) [
          | yes e ↦ rw (← e) used
          | no ne ↦ f.first j (omega arith) h
        ];
      },
    )
  ])
]

-- The new descriptor stands in the first free entry; every other open file keeps its own.
pub record NewDescriptor (v : Vfs) (desc : ℕ) (t : Vfs) : Type 0 where
  pub entry : (i : ℕ) × IsFirstFree v.file_descriptors 1 511 i
  pub address : desc ≡ (kzalloc v.fat.heap v.fat.memory sizeof_file_descriptor).0
  pub found : file_get_descriptor t (pos entry.0) ≡ desc
  pub index : (t.descriptors desc).index ≡ entry.0
  pub others : (fd : ℤ) → fd ≢ pos entry.0 → file_get_descriptor t fd ≡ file_get_descriptor v fd
  pub structs : (a : ℕ) → a ≢ desc → t.descriptors a ≡ v.descriptors a

entry_of :
    (v : Vfs) (i : ℕ) → 1 ≤ i → i < 512 → file_get_descriptor v (pos i) ≡ v.file_descriptors i
unfolding file_get_descriptor
entry_of v i l h =
    rw (le→ltb (i + 0) (1 + 0) (omega arith), lt→ltb (i + 0) (512 + 0) (omega arith)) refl

same_entries :
    (v t : Vfs) (fd : ℤ)
    → ((i : ℕ) → fd ≡ pos i → t.file_descriptors i ≡ v.file_descriptors i)
    → file_get_descriptor t fd ≡ file_get_descriptor v fd
unfolding file_get_descriptor
same_entries v t (pos i) h = rw (h i refl) refl
same_entries v t (negsuc n) h = rw (lt→ltb (0 + 0) (1 + suc n) (omega arith)) refl

take-NewDescriptor :
    (v : Vfs) (i : ℕ)
    → IsFirstFree v.file_descriptors 1 511 i
    → NewDescriptor v (take_descriptor v i).0 (take_descriptor v i).1
unfolding take_descriptor
take-NewDescriptor v i f =
    let entry = update_self v.file_descriptors i (take_descriptor v i).0 in
    record {
      entry = (i, f);
      address = refl;
      found = entry_of (take_descriptor v i).1 i f.low f.high ∙ entry;
      index = ap FileDescriptor.index (
          update_self v.descriptors (take_descriptor v i).0
            (record { index = i; filesystem = 0; private = 0; disk = 0 }));
      others = λ fd ne. same_entries v (take_descriptor v i).1 fd (λ j e.
          update_ne v.file_descriptors i (take_descriptor v i).0 j (λ x. ne (e ∙ ap pos x)));
      structs = λ a ne.
          update_ne v.descriptors (take_descriptor v i).0
            (record { index = i; filesystem = 0; private = 0; disk = 0 }) a ne;
    }

-- file_new_descriptor fails and allocates nothing if all 511 entries are in use; otherwise it puts
-- the new descriptor, with its index, into the first free entry, where file_get_descriptor finds
-- it, and all other open files keep theirs.
pub file_new_descriptor-cases :
    (v : Vfs)
    → ((file_new_descriptor v ≡ none) × InUse v.file_descriptors 1 511)
      ⊎ ((desc : ℕ) × (t : Vfs) × (file_new_descriptor v ≡ some (desc, t)) × NewDescriptor v desc t)
unfolding file_new_descriptor
file_new_descriptor-cases v = elim (free_from-cases v.file_descriptors 511 1) [
  | inl (r, all) ↦ rw r (inl (refl, all))
  | inr (i, r, f) ↦
      rw r (inr ((take_descriptor v i).0, (take_descriptor v i).1, refl, take-NewDescriptor v i f))
]

-- A number that stands for no open file is refused by fread, fseek and fstat, which change nothing.
pub file_get_descriptor-refused :
    (functions : ℕ → Filesystem) (v : Vfs) (fd : ℤ) (ptr size nmemb whence : ℕ) (offset : ℤ)
    (stat : FileStat)
    → file_get_descriptor v fd ≡ 0
    → (fread functions v ptr size nmemb fd ≡ (minus_one, v))
      × (fseek functions v fd offset whence ≡ (minus_one, v))
      × (fstat functions v fd stat ≡ (minus_one, stat))
unfolding fread fseek fstat
file_get_descriptor-refused functions v fd ptr size nmemb whence offset stat e = rw e (ground arith)
