-- ===== src/Paging/Elsewhere.antt =====
-- The memory that paging_map_to leaves alone: what is in no table of the directory.
use simple_microkernel.Base.{
  ℕ, zero, suc, ◌+◌, ◌-◌, ◌*◌, ◌/◌, ◌%◌, ◌^◌, ◌≤◌, ◌<◌, ◌≡◌, ◌≢◌, refl, ◌∙◌, eq→==, le→ltb,
  update_ne, add32, sub32, bit_or, arith,
}
use simple_microkernel.Paging.{Words, map_range, map_to}
use simple_microkernel.Paging.Indexes.{directory_index}
use simple_microkernel.Paging.Entries.{IsDirectory, slot, frame, written-IsDirectory}
use simple_microkernel.Paging.Ranges.{mapped_page, paging_map-page}

-- The word at `a` lies in no table of the directory.
abbrev pub InNoTable : Words → ℕ → ℕ → Type 0
InNoTable m directory a = (i : ℕ) → i < 1024 → frame m directory i ≢ a / 4096

module _ (directory flags : ℕ) where
  pub page_elsewhere :
      (m : Words) (v p a : ℕ)
      → v < 2 ^ 32
      → InNoTable m directory a
      → mapped_page directory flags m v p a ≡ m a
  page_elsewhere m v p a h out =
      update_ne m (slot m directory v) (bit_or p flags) a
        (λ e. out (directory_index v) (omega arith) (omega arith))

  page-InNoTable :
      (m : Words) (v p a : ℕ)
      → IsDirectory m directory
      → v < 2 ^ 32
      → InNoTable m directory a
      → InNoTable (mapped_page directory flags m v p) directory a
  page-InNoTable m v p a d h out i l =
      let same =
        page_elsewhere m v p (directory + 4 * i) h
          (λ j k e. d.apart j k (e ∙ omega (arith, d.aligned))) in
      rw same (out i l)

  map_range-elsewhere :
      {m : Words} (v p n a : ℕ)
      → IsDirectory m directory
      → v % 4096 ≡ 0
      → p % 4096 ≡ 0
      → v + n * 4096 < 2 ^ 32
      → p + n * 4096 < 2 ^ 32
      → InNoTable m directory a
      → (map_range m directory v p flags n).1 a ≡ m a
  unfolding map_range
  map_range-elsewhere v p zero a d x y h k out = refl
  map_range-elsewhere {m} v p (suc n) a d x y h k out =
      let next_v : add32 v 4096 ≡ v + 4096 = omega arith in
      let next_p : add32 p 4096 ≡ p + 4096 = omega arith in
      rw (paging_map-page directory flags v p d x y (omega arith), next_v, next_p)
        (map_range-elsewhere {m = mapped_page directory flags m v p} (v + 4096) (p + 4096) n a
            (written-IsDirectory d v (bit_or p flags) x (omega arith)) (omega arith) (omega arith)
            (omega arith) (omega arith) (page-InNoTable m v p a d (omega arith) out)
          ∙ page_elsewhere m v p a (omega arith) out)

-- paging_map_to of aligned addresses writes nothing but entries of the directory's tables.
pub map_to-elsewhere :
    {m : Words} (directory v p end flags a : ℕ)
    → IsDirectory m directory
    → v % 4096 ≡ 0
    → p % 4096 ≡ 0
    → end % 4096 ≡ 0
    → p ≤ end
    → end < 2 ^ 32
    → v + (end - p) < 2 ^ 32
    → InNoTable m directory a
    → (map_to m directory v p end flags).1 a ≡ m a
unfolding map_to
map_to-elsewhere directory v p end flags a d x y z h k l out =
    let pages : sub32 end p / 4096 ≡ (end - p) / 4096 = omega arith in
    rw (eq→== (v % 4096) 0 x, eq→== (p % 4096) 0 y, eq→== (end % 4096) 0 z, le→ltb end p h, pages)
      (map_range-elsewhere directory flags v p ((end - p) / 4096) a d x y (omega arith)
        (omega arith) out)
