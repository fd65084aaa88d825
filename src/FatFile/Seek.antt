-- ===== src/FatFile/Seek.antt =====
-- Where fat16_seek leaves a descriptor.
use simple_microkernel.Base.{
  ℕ, ◌≤◌, ◌<◌, ◌≡◌, ◌≢◌, ◌⊎◌, inl, inr, refl, ap, ◌==◌, leb, Bool-cases, eq→==, ne→==, update_self,
  update_ne, add32, ℤ, pos, minus_one, arith,
}
use simple_microkernel.FatFile.{
  FatItem, FatFileDescriptor, FatState, item_filesize, seek_to, fat16_seek,
}
use native.Mathlib.Decide.{ℕ_discrete}

-- the item that a descriptor stands for
abbrev pub item_of : FatState → ℕ → FatItem
item_of s desc = s.items (s.descriptors desc).item

-- The seek is one that fails: at something that is no file, at or behind the end, or in another mode.
abbrev pub Refused : FatState → ℕ → ℕ → ℕ → Type 0
Refused s desc offset mode =
    ((item_of s desc).item_type ≢ 1)
    ⊎ (item_filesize s.memory (item_of s desc).item ≤ offset)
    ⊎ ((mode ≢ 0) × (mode ≢ 1))

-- The seek succeeds, to `offset` or by `offset` bytes forward, and moves nothing else.
pub record Sought (s : FatState) (desc offset mode : ℕ) (r : ℤ × FatState) : Type 0 where
  pub done : r.0 ≡ pos 0
  pub file : (item_of s desc).item_type ≡ 1
  pub inside : offset < item_filesize s.memory (item_of s desc).item
  pub position :
      ((mode ≡ 0) × ((r.1.descriptors desc).pos ≡ offset))
      ⊎ ((mode ≡ 1) × ((r.1.descriptors desc).pos ≡ add32 (s.descriptors desc).pos offset))
  pub same_item : (r.1.descriptors desc).item ≡ (s.descriptors desc).item
  pub others : (a : ℕ) → a ≢ desc → r.1.descriptors a ≡ s.descriptors a
  pub only : r.1 ≡ record s { descriptors = r.1.descriptors }

seek_to-cases :
    (s : FatState) (desc offset mode : ℕ)
    → (item_of s desc).item_type ≡ 1
    → offset < item_filesize s.memory (item_of s desc).item
    → ((seek_to s desc offset mode ≡ (minus_one, s)) × Refused s desc offset mode)
      ⊎ Sought s desc offset mode (seek_to s desc offset mode)
unfolding seek_to
seek_to-cases s desc offset mode file h = elim (ℕ_discrete mode 0) [
  | yes set ↦
      let v = record (s.descriptors desc) { pos = offset } in
      rw (eq→== mode 0 set) (
        inr (record {
          done = refl;
          file = file;
          inside = h;
          position = inl (set, ap FatFileDescriptor.pos (update_self s.descriptors desc v));
          same_item = ap FatFileDescriptor.item (update_self s.descriptors desc v);
          others = λ a ne. update_ne s.descriptors desc v a ne;
          only = refl;
        }))
  | no not_set ↦ elim (ℕ_discrete mode 1) [
    | yes cur ↦
        let v = record (s.descriptors desc) { pos = add32 (s.descriptors desc).pos offset } in
        rw (ne→== mode 0 not_set, ne→== mode 2 (omega arith), eq→== mode 1 cur)
          (inr (record {
            done = refl;
            file = file;
            inside = h;
            position = inr (cur, ap FatFileDescriptor.pos (update_self s.descriptors desc v));
            same_item = ap FatFileDescriptor.item (update_self s.descriptors desc v);
            others = λ a ne. update_ne s.descriptors desc v a ne;
            only = refl;
          }))
    | no not_cur ↦ elim (Bool-cases (mode == 2)) [
      | inl end ↦ rw (ne→== mode 0 not_set, end) (inl (refl, inr (inr (not_set, not_cur))))
      | inr other ↦
          rw (ne→== mode 0 not_set, other, ne→== mode 1 not_cur)
            (inl (refl, inr (inr (not_set, not_cur))))
    ]
  ]
]

-- fat16_seek either fails and changes nothing, at what is no file, at an offset that is not below
-- the file's size or in another mode than SEEK_SET and SEEK_CUR; or it succeeds, and the descriptor
-- has moved, to the offset or by the offset. Nothing else of the state changes: not its item, no
-- other descriptor, no item, no memory, heap, disk or volume.
pub fat16_seek-cases :
    (s : FatState) (desc offset mode : ℕ)
    → ((fat16_seek s desc offset mode ≡ (minus_one, s)) × Refused s desc offset mode)
      ⊎ Sought s desc offset mode (fat16_seek s desc offset mode)
unfolding fat16_seek
fat16_seek-cases s desc offset mode = elim (ℕ_discrete (item_of s desc).item_type 1) [
  | yes file ↦ elim (Bool-cases (leb (item_filesize s.memory (item_of s desc).item) offset)) [
    | inl behind ↦
        rw (eq→== (item_of s desc).item_type 1 file, behind)
          (inl (refl, inr (inl (ground (arith, behind)))))
    | inr inside ↦
        rw (eq→== (item_of s desc).item_type 1 file, inside)
          (seek_to-cases s desc offset mode file (ground (arith, inside)))
  ]
  | no other ↦ rw (ne→== (item_of s desc).item_type 1 other) (inl (refl, inl other))
]
