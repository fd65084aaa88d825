-- ===== src/Paging/Ranges.antt =====
-- Ranges of pages: paging_map, paging_map_range and paging_map_to.
use native.Mathlib.Nat.{add-zero}
use simple_microkernel.Base.{
  ℕ, zero, suc, ◌+◌, ◌-◌, ◌*◌, ◌/◌, ◌%◌, ◌^◌, ◌≤◌, ◌<◌, ◌≡◌, ◌≢◌, ◌⊎◌, inl, refl, ◌∙◌, ap, eq→==,
  ne→==, le→ltb, pos, minus_one, update, add32, sub32, bit_or, arith,
}
use simple_microkernel.Paging.{Words, paging_get, paging_map, map_range, map_to}
use simple_microkernel.Paging.Entries.{
  IsDirectory, slot, paging_set-slot, written-IsDirectory, paging_get-written,
}

-- From `m` to `m'` the `n` pages from `v` on have been mapped to those from `p` on.
pub record RangeMapped (m : Words) (directory v p flags n : ℕ) (m' : Words) : Type 0 where
  pub well_formed : IsDirectory m' directory
  pub mapped :
      (k : ℕ) → k < n → paging_get m' directory (v + k * 4096) ≡ bit_or (p + k * 4096) flags
  pub kept :
      (w : ℕ)
      → w % 4096 ≡ 0
      → w < 2 ^ 32
      → (w < v) ⊎ (v + n * 4096 ≤ w)
      → paging_get m' directory w ≡ paging_get m directory w

module _ (directory flags : ℕ) where
  -- the memory after one page has been mapped
  abbrev pub mapped_page : Words → ℕ → ℕ → Words
  mapped_page m v p = update m (slot m directory v) (bit_or p flags)

  pub paging_map-page :
      {m : Words} (v p : ℕ)
      → IsDirectory m directory
      → v % 4096 ≡ 0
      → p % 4096 ≡ 0
      → v < 2 ^ 32
      → paging_map m directory v p flags ≡ (pos 1, mapped_page m v p)
  unfolding paging_map
  paging_map-page v p d a b h =
      rw (eq→== (v % 4096) 0 a, eq→== (p % 4096) 0 b) (paging_set-slot d v (bit_or p flags) a h)

  -- one page more in front
  RangeMapped-suc :
      {m m' : Words} (v p n : ℕ)
      → IsDirectory m directory
      → v % 4096 ≡ 0
      → v + suc n * 4096 < 2 ^ 32
      → RangeMapped (mapped_page m v p) directory (v + 4096) (p + 4096) flags n m'
      → RangeMapped m directory v p flags (suc n) m'
  RangeMapped-suc {m} {m'} v p n d a h r = record {
    well_formed = r.well_formed;
    mapped = first;
    kept = λ w b c o.
        r.kept w b c (omega arith)
        ∙ (paging_get-written d v (bit_or p flags) a (omega arith) w b c
            ∙ rw (ne→== w v (omega arith)));
  }
    where
      first :
          (k : ℕ) → k < suc n → paging_get m' directory (v + k * 4096) ≡ bit_or (p + k * 4096) flags
      first zero l = rw (add-zero) (
          r.kept v a (omega arith) (inl (omega arith))
          ∙ (paging_get-written d v (bit_or p flags) a (omega arith) v a (omega arith)
              ∙ rw (eq→== v v refl) (ap (λ (x : ℕ). bit_or x flags) (omega arith))))
      first (suc k) l =
          let here : v + 4096 + k * 4096 ≡ v + suc k * 4096 = omega arith in
          let there : p + 4096 + k * 4096 ≡ p + suc k * 4096 = omega arith in
          rw (here, there) at (r.mapped k (omega arith))

  map_range-RangeMapped :
      {m : Words} (v p n : ℕ)
      → IsDirectory m directory
      → v % 4096 ≡ 0
      → p % 4096 ≡ 0
      → v + n * 4096 < 2 ^ 32
      → p + n * 4096 < 2 ^ 32
      → ((map_range m directory v p flags n).0 ≡ pos 1)
        × RangeMapped m directory v p flags n (map_range m directory v p flags n).1
  unfolding map_range
  map_range-RangeMapped v p zero d a b h k = (
    refl,
    record { well_formed = d; mapped = λ k l. absurd (omega arith); kept = λ w x y o. refl },
  )
  map_range-RangeMapped {m} v p (suc n) d a b h k =
      let next_v : add32 v 4096 ≡ v + 4096 = omega arith in
      let next_p : add32 p 4096 ≡ p + 4096 = omega arith in
      let rest =
        map_range-RangeMapped {m = mapped_page m v p} (v + 4096) (p + 4096) n
          (written-IsDirectory d v (bit_or p flags) a (omega arith)) (omega arith) (omega arith)
          (omega arith) (omega arith) in
      rw (paging_map-page v p d a b (omega arith), next_v, next_p)
        (rest.0, RangeMapped-suc v p n d a h rest.1)

-- paging_map_range of aligned addresses succeeds and maps exactly the `n` pages, if both ranges end
-- below the top of the address space.
pub map_range_lem :
    {m : Words} (directory v p flags n : ℕ)
    → IsDirectory m directory
    → v % 4096 ≡ 0
    → p % 4096 ≡ 0
    → v + n * 4096 < 2 ^ 32
    → p + n * 4096 < 2 ^ 32
    → ((map_range m directory v p flags n).0 ≡ pos 1)
      × RangeMapped m directory v p flags n (map_range m directory v p flags n).1
map_range_lem directory v p flags n = map_range-RangeMapped directory flags v p n

-- paging_map_to maps the pages of [p, end) from `v` on, if the three addresses are aligned.
pub map_to_lem :
    {m : Words} (directory v p end flags : ℕ)
    → IsDirectory m directory
    → v % 4096 ≡ 0
    → p % 4096 ≡ 0
    → end % 4096 ≡ 0
    → p ≤ end
    → end < 2 ^ 32
    → v + (end - p) < 2 ^ 32
    → ((map_to m directory v p end flags).0 ≡ pos 1)
      × RangeMapped m directory v p flags ((end - p) / 4096) (map_to m directory v p end flags).1
unfolding map_to
map_to_lem directory v p end flags d a b c h k l =
    let pages : sub32 end p / 4096 ≡ (end - p) / 4096 = omega arith in
    rw (eq→== (v % 4096) 0 a, eq→== (p % 4096) 0 b, eq→== (end % 4096) 0 c, le→ltb end p h, pages)
      (map_range_lem directory v p flags ((end - p) / 4096) d a b (omega arith) (omega arith))

-- paging_map_to returns -1 and writes nothing if one of the addresses is not aligned, or the end
-- lies below the start.
pub map_to-refused :
    (m : Words) (directory v p end flags : ℕ)
    → (v % 4096 ≢ 0) ⊎ (p % 4096 ≢ 0) ⊎ (end % 4096 ≢ 0) ⊎ (end < p)
    → map_to m directory v p end flags ≡ (minus_one, m)
unfolding map_to
map_to-refused m directory v p end flags bad = ground arith
