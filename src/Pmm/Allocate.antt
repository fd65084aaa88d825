-- ===== src/Pmm/Allocate.antt =====
-- `pmm_allocate_block` gives out the first free block.
use simple_microkernel.Base.{
  ℕ, zero, suc, ◌+◌, ◌*◌, ◌/◌, ◌^◌, ◌≤◌, ◌<◌, ◌≡◌, ◌≢◌, ◌⊎◌, inl, inr, refl, false, ◌==◌,
  Bool-cases, ==→eq, ==→ne, update, update_lem, update_self, arith, ℤ, pos, minus_one, int_value,
  add32, sub32, ◌∙◌, ap, ne→==,
}
use native.Mathlib.Decide.{ℕ_discrete}
use simple_microkernel.Pmm.{
  Pmm, block_size, memory_map_set, memory_map_test, first_free_from, get_first_free_block,
  take_frame, allocate_block, free_block,
}
use simple_microkernel.Pmm.Bitmap.{set-SameCounters, test-set, test_of_map}
use simple_microkernel.Pmm.Count.{count_free-zero, count_free-use}
use simple_microkernel.Pmm.Valid.{IsValid, free_block-IsValid}

-- `k` is the first free block at or above `i`.
pub record IsFirstFree (t : ℕ → ℕ) (i k : ℕ) : Type 0 where
  pub above : i ≤ k
  pub free : t k ≡ 0
  pub first : (j : ℕ) → i ≤ j → j < k → t j ≢ 0

-- What the search returns: the first free block, or -1 if there is none.
abbrev pub Found : (ℕ → ℕ) → ℕ → ℕ → ℤ → Type 0
Found t i end r =
    ((k : ℕ) × (r ≡ pos k) × (k < end) × IsFirstFree t i k)
    ⊎ ((r ≡ minus_one) × ((j : ℕ) → i ≤ j → j < end → t j ≢ 0))

int_value-small : (i : ℕ) → i < 2 ^ 31 → int_value i ≡ pos i
int_value-small i h = ground arith

first_free_from-Found :
    (p : Pmm) (i rounds : ℕ)
    → i + rounds ≤ 2 ^ 31
    → Found (memory_map_test p) i (i + rounds) (first_free_from p i rounds)
unfolding first_free_from
first_free_from-Found p i zero h = inr (refl, λ j a b. absurd (omega arith))
first_free_from-Found p i (suc rounds) h = elim (Bool-cases (memory_map_test p i == 0)) [
  | inl e ↦ rw e (
      inl (
        i,
        int_value-small i (omega arith),
        omega arith,
        record { above = omega arith; free = ==→eq _ _ e; first = λ j a b. absurd (omega arith) },
      ))
  | inr e ↦ rw e (elim (first_free_from-Found p (suc i) rounds (omega arith)) [
    | inl (k, r, l, f) ↦ inl (
      k,
      r,
      omega arith,
      record {
        above = omega (arith, f.above);
        free = f.free;
        first = λ j a b. later e f.first j a b;
      },
    )
    | inr (r, none_free) ↦ inr (r, λ j a b. later e none_free j a (omega arith))
  ])
]
  where
    later :
        {end : ℕ}
        → (memory_map_test p i == 0) ≡ false
        → ((j : ℕ) → suc i ≤ j → j < end → memory_map_test p j ≢ 0)
        → (j : ℕ) → i ≤ j
        → j < end
        → memory_map_test p j ≢ 0
    later e rest j a b = elim (ℕ_discrete i j) [
      | yes same ↦ rw (← same) (==→ne _ _ e)
      | no other ↦ rest j (omega arith) b
    ]

-- The outcome of a successful `pmm_allocate_block`: block `k` has been taken.
pub record Allocated (p : Pmm) (k : ℕ) (r : ℕ × Pmm) : Type 0 where
  pub address : r.0 ≡ k * block_size
  pub not_reserved : 0 < k
  pub in_memory : k < p.system_memory_size
  pub first : IsFirstFree (memory_map_test p) 0 k
  pub entries : memory_map_test r.1 ≡ update (memory_map_test p) k 1
  pub free : r.1.free_blocks + 1 ≡ p.free_blocks
  pub used : r.1.used_blocks ≡ p.used_blocks + 1
  pub size : r.1.system_memory_size ≡ p.system_memory_size
  pub valid : IsValid r.1

module _ {p : Pmm} (v : IsValid p) where
  -- With no free block `pmm_allocate_block` returns 0 and changes nothing.
  pub allocate_block-full : p.free_blocks ≡ 0 → allocate_block p ≡ (0, p)
  unfolding allocate_block
  allocate_block-full e = rw e

  abbrev taken : ℕ → Pmm
  taken k = record (memory_map_set p k) {
    free_blocks = sub32 p.free_blocks 1;
    used_blocks = add32 p.used_blocks 1;
  }

  test-taken : (k : ℕ) → memory_map_test (taken k) ≡ update (memory_map_test p) k 1
  test-taken k = test_of_map (taken k) (memory_map_set p k) refl ∙ test-set p k

  take_frame-Allocated :
      (k : ℕ)
      → 0 < p.free_blocks
      → k < p.system_memory_size
      → IsFirstFree (memory_map_test p) 0 k
      → Allocated p k (take_frame p (pos k))
  unfolding take_frame
  take_frame-Allocated zero some_free h f = absurd (omega (arith, v.reserved, f.free))
  take_frame-Allocated (suc k) some_free h f =
      let size = (set-SameCounters p (suc k)).size in
      let fewer = count_free-use (memory_map_test p) p.system_memory_size (suc k) f.free h in
      record {
        address = omega arith;
        not_reserved = omega arith;
        in_memory = h;
        first = f;
        entries = test-taken (suc k);
        free = omega arith;
        used = omega arith;
        size = size;
        valid = record {
          in_4gb = omega arith;
          split = omega arith;
          counted = rw (test-taken (suc k), size) (omega arith);
          reserved = rw test-taken (ground (arith, update_lem (memory_map_test p) (suc k) 1 0));
        };
      }

  allocate_block-take :
      (k : ℕ)
      → 0 < p.free_blocks
      → first_free_from p 0 p.system_memory_size ≡ pos k
      → allocate_block p ≡ take_frame p (pos k)
  unfolding allocate_block get_first_free_block
  allocate_block-take k h r = rw (ne→== p.free_blocks 0 (omega arith)) (ap (take_frame p) r)

  -- With a free block `pmm_allocate_block` takes the first one.
  pub allocate_block-Allocated : 0 < p.free_blocks → (k : ℕ) × Allocated p k (allocate_block p)
  allocate_block-Allocated h = elim (first_free_from-Found p 0 p.system_memory_size (omega arith)) [
    | inl (k, r, l, f) ↦
        (k, rw (allocate_block-take k h r) (take_frame-Allocated k h (omega arith) f))
    | inr (r, none_free) ↦ absurd (
        omega (
          arith,
          v.counted,
          count_free-zero (memory_map_test p) p.system_memory_size
              (λ j l. none_free j (omega arith) (omega arith)),
        ))
  ]

pub free_block-Allocated-IsValid :
    {p : Pmm} {k : ℕ} {r : ℕ × Pmm} → Allocated p k r → IsValid (free_block r.1 r.0)
free_block-Allocated-IsValid {p} {k} {r} a =
    let block : r.0 / block_size ≡ k = omega arith in
    let taken : memory_map_test r.1 (r.0 / block_size) ≡ 1 =
      rw (block, a.entries) (update_self (memory_map_test p) k 1) in
    (free_block-IsValid r.0 a.valid taken (omega arith) (omega arith)).0

-- the state after a block has been allocated and freed again
abbrev pub allocate_then_free : Pmm → Pmm
allocate_then_free p = let (ptr, q) = allocate_block p in free_block q ptr

abbrev pub SameBlocks : Pmm → Pmm → Type 0
SameBlocks p q =
    ((j : ℕ) → memory_map_test q j ≡ memory_map_test p j)
    × (q.free_blocks ≡ p.free_blocks)
    × (q.used_blocks ≡ p.used_blocks)

pub free_block-Allocated :
    {p : Pmm} {k : ℕ} {r : ℕ × Pmm} → Allocated p k r → SameBlocks p (free_block r.1 r.0)
free_block-Allocated {p} {k} {r} a =
    let block : r.0 / block_size ≡ k = omega arith in
    let taken : memory_map_test r.1 (r.0 / block_size) ≡ 1 =
      rw (block, a.entries) (update_self (memory_map_test p) k 1) in
    let (w, f, u, t) = free_block-IsValid r.0 a.valid taken (omega arith) (omega arith) in
    (
      λ j.
          rw (t, a.entries, block)
            (ground (
              arith,
              update_lem (update (memory_map_test p) k 1) k 0 j,
              update_lem (memory_map_test p) k 1 j,
              a.first.free,
            )),
      omega arith,
      omega arith,
    )

-- `pmm_free_block` of the block that `pmm_allocate_block` has just returned gives back every entry
-- of the bitmap and both counters, if a block was free.
pub free_block-allocate_block :
    {p : Pmm} → IsValid p → 0 < p.free_blocks → SameBlocks p (allocate_then_free p)
free_block-allocate_block v h = free_block-Allocated (allocate_block-Allocated v h).1
