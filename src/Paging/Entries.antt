-- ===== src/Paging/Entries.antt =====
-- One entry of a page directory: what paging_set writes is what paging_get reads.
use native.Mathlib.Decide.{ℕ_discrete}
use simple_microkernel.Base.{
  ℕ, ◌+◌, ◌*◌, ◌/◌, ◌%◌, ◌^◌, ◌≤◌, ◌<◌, ◌≡◌, ◌≢◌, refl, ◌∙◌, ap, ◌==◌, if◌then◌else◌, eq→==, ne→==,
  pos, minus_one, update, update_ne, update_self, bit_and_page, arith,
}
use simple_microkernel.Paging.{Words, entry_address, entry_slot, paging_get, paging_set}
use simple_microkernel.Paging.Indexes.{directory_index, table_index}

module _ (m : Words) (directory : ℕ) where
  -- the number of the page that the table of directory entry `i` lies in
  abbrev pub frame : ℕ → ℕ
  frame i = m (directory + 4 * i) / 4096

  -- A page directory whose tables lie in pages of their own.
  pub record IsDirectory : Type 0 where
    pub aligned : directory % 4096 ≡ 0
    pub fits : directory + 4096 ≤ 2 ^ 32
    pub word : (i : ℕ) → i < 1024 → m (directory + 4 * i) < 2 ^ 32
    pub apart : (i : ℕ) → i < 1024 → frame i ≢ directory / 4096
    pub distinct : (i j : ℕ) → i < 1024 → j < 1024 → frame i ≡ frame j → i ≡ j

  -- the address of the entry for the page of `v`
  abbrev pub slot : ℕ → ℕ
  slot v = frame (directory_index v) * 4096 + 4 * table_index v

module _ {m : Words} {directory : ℕ} (d : IsDirectory m directory) where
  slot-eq :
      (v : ℕ)
      → v < 2 ^ 32
      → entry_slot m directory (directory_index v) (table_index v) ≡ slot m directory v
  unfolding entry_slot
  slot-eq v h =
      let entry : entry_address directory (directory_index v) ≡ directory + 4 * directory_index v =
        omega (arith, d.fits) in
      let word = d.word (directory_index v) (omega arith) in
      rw (entry, bit_and_page (m (directory + 4 * directory_index v)) word) (omega arith)

  pub paging_get-slot :
      (v : ℕ) → v % 4096 ≡ 0 → v < 2 ^ 32 → paging_get m directory v ≡ m (slot m directory v)
  unfolding paging_get
  paging_get-slot v h u = rw (eq→== (v % 4096) 0 h) (ap m (slot-eq v u))

  pub paging_set-slot :
      (v val : ℕ)
      → v % 4096 ≡ 0
      → v < 2 ^ 32
      → paging_set m directory v val ≡ (pos 1, update m (slot m directory v) val)
  unfolding paging_set
  paging_set-slot v val h u =
      rw (eq→== (v % 4096) 0 h) (ap (λ a. (pos 1, update m a val)) (slot-eq v u))

  -- No entry lies in the directory itself.
  slot-apart : (v i : ℕ) → v < 2 ^ 32 → i < 1024 → directory + 4 * i ≢ slot m directory v
  slot-apart v i u h e = d.apart (directory_index v) (omega arith) (omega (arith, d.aligned))

  -- Different pages have different entries.
  slot-injective :
      (v w : ℕ)
      → v % 4096 ≡ 0
      → w % 4096 ≡ 0
      → v < 2 ^ 32
      → w < 2 ^ 32
      → slot m directory v ≡ slot m directory w
      → v ≡ w
  slot-injective v w a b h k e = omega (
    arith,
    d.distinct (directory_index v) (directory_index w) (omega arith) (omega arith) (omega arith),
  )

  module _ (v val : ℕ) (aligned : v % 4096 ≡ 0) (below : v < 2 ^ 32) where
    abbrev written : Words
    written = update m (slot m directory v) val

    written-entry : (i : ℕ) → i < 1024 → written (directory + 4 * i) ≡ m (directory + 4 * i)
    written-entry i h =
        update_ne m (slot m directory v) val (directory + 4 * i) (slot-apart v i below h)

    pub written-IsDirectory : IsDirectory written directory
    written-IsDirectory = record {
      aligned = d.aligned;
      fits = d.fits;
      word = λ i h. rw (written-entry i h) (d.word i h);
      apart = λ i h. rw (written-entry i h) (d.apart i h);
      distinct = λ i j h k. rw (written-entry i h, written-entry j k) (d.distinct i j h k);
    }

    written-slot : (w : ℕ) → w < 2 ^ 32 → slot written directory w ≡ slot m directory w
    written-slot w h = rw (written-entry (directory_index w) (omega arith))

    written-cases :
        (w : ℕ)
        → w % 4096 ≡ 0
        → w < 2 ^ 32
        → written (slot m directory w) ≡ (if w == v then val else m (slot m directory w))
    written-cases w a b = elim (ℕ_discrete w v) [
      | yes same ↦
          rw (eq→== w v same)
            (ap (λ x. written (slot m directory x)) same ∙ update_self m (slot m directory v) val)
      | no other ↦ rw (ne→== w v other) (
          update_ne m (slot m directory v) val (slot m directory w)
            (λ e. other (slot-injective w v a aligned b below e)))
    ]

-- After a write for the page of `v`, the entry of that page is `val`, and the entry of every other
-- page is what it was.
pub paging_get-written :
    {m : Words} {directory : ℕ} (d : IsDirectory m directory) (v val : ℕ) (a : v % 4096 ≡ 0)
    (b : v < 2 ^ 32) (w : ℕ)
    → w % 4096 ≡ 0
    → w < 2 ^ 32
    → paging_get (update m (slot m directory v) val) directory w
      ≡ (if w == v then val else paging_get m directory w)
paging_get-written {m} {directory} d v val a b w h k =
    rw
      (
        paging_get-slot (written-IsDirectory d v val a b) w h k,
        written-slot d v val a b w k,
        paging_get-slot d w h k,
      )
      (written-cases d v val a b w h k)

-- paging_set of an aligned address succeeds and keeps the directory well formed; paging_get then
-- returns the value for the page of that address, and for every other page what it returned
-- before.
pub paging_get-paging_set :
    {m : Words} {directory : ℕ} (v val w : ℕ)
    → IsDirectory m directory
    → v % 4096 ≡ 0
    → v < 2 ^ 32
    → w % 4096 ≡ 0
    → w < 2 ^ 32
    → let (res, m') = paging_set m directory v val in
      (res ≡ pos 1)
      × IsDirectory m' directory
      × (paging_get m' directory w ≡ (if w == v then val else paging_get m directory w))
paging_get-paging_set v val w d a b h k =
    rw (paging_set-slot d v val a b)
      (refl, written-IsDirectory d v val a b, paging_get-written d v val a b w h k)

-- paging_set of an address that is not aligned returns -1 and writes nothing.
pub paging_set-unaligned :
    (m : Words) (directory v val : ℕ) → v % 4096 ≢ 0 → paging_set m directory v val ≡ (minus_one, m)
unfolding paging_set
paging_set-unaligned m directory v val h = rw (ne→== (v % 4096) 0 h)
