-- ===== src/Pmm/Range.antt =====
-- The search of pmm.c for a run of free blocks.
use native.Mathlib.Decide.{ℕ_discrete}
use simple_microkernel.Base.{
  ℕ, zero, suc, ◌+◌, ◌-◌, ◌≤◌, ◌<◌, ◌^◌, ◌≡◌, ◌⊎◌, inl, inr, refl, false, ◌==◌, Bool-cases, ==→eq,
  ==→ne, add32, arith,
}
use simple_microkernel.Pmm.{
  Pmm, memory_map_test, check_from, check_range, first_n_from, get_first_n_blocks,
}
use simple_microkernel.Pmm.Bitmap.{test-lt}

-- every block of [start, end) is free
abbrev pub AllFree : (ℕ → ℕ) → ℕ → ℕ → Type 0
AllFree t start end = (j : ℕ) → start ≤ j → j < end → t j ≡ 0

-- some block of [start, end) is used
abbrev pub SomeUsed : (ℕ → ℕ) → ℕ → ℕ → Type 0
SomeUsed t start end = (j : ℕ) × (start ≤ j) × (j < end) × (t j ≡ 1)

-- the two answers of pmm_check_range
abbrev pub Checked : (ℕ → ℕ) → ℕ → ℕ → ℕ → Type 0
Checked t start end r = ((r ≡ 0) × AllFree t start end) ⊎ ((r ≡ 1) × SomeUsed t start end)

check_from-Checked :
    (p : Pmm) (i rounds : ℕ) → Checked (memory_map_test p) i (i + rounds) (check_from p i rounds)
unfolding check_from
check_from-Checked p i zero = inl (refl, λ j a b. absurd (omega arith))
check_from-Checked p i (suc rounds) = elim (Bool-cases (memory_map_test p i == 1)) [
  | inl e ↦ rw e (inr (refl, (i, omega arith, omega arith, ==→eq _ _ e)))
  | inr e ↦ rw e (elim (check_from-Checked p (suc i) rounds) [
    | inl (r, all) ↦ inl (r, λ j a b. first e all j a (omega arith))
    | inr (r, (j, a, b, u)) ↦ inr (r, (j, omega arith, omega arith, u))
  ])
]
  where
    first :
        {end : ℕ}
        → (memory_map_test p i == 1) ≡ false
        → AllFree (memory_map_test p) (suc i) end
        → AllFree (memory_map_test p) i end
    first e all j a b = elim (ℕ_discrete i j) [
      | yes same ↦ rw (← same) (omega (arith, test-lt p i, ==→ne _ _ e))
      | no other ↦ all j (omega arith) b
    ]

-- `pmm_check_range` returns 0 if every block of the range is free, and 1 if one of them is used.
pub check_range-Checked :
    (p : Pmm) (start end : ℕ)
    → start ≤ end
    → Checked (memory_map_test p) start end (check_range p start end)
unfolding check_range
check_range-Checked p start end h =
    let whole : start + (end - start) ≡ end = omega arith in
    rw whole at (check_from-Checked p start (end - start))

-- `s` is the first start, from `start` on, of `n` free blocks that end below the last block.
pub record IsFirstRun (t : ℕ → ℕ) (start n size s : ℕ) : Type 0 where
  pub above : start ≤ s
  pub inside : s + n < size
  pub free : AllFree t s (s + n)
  pub first : (j : ℕ) → start ≤ j → j < s → SomeUsed t j (j + n)

-- the answers of pmm_get_first_n_blocks
abbrev pub FoundRun : (ℕ → ℕ) → ℕ → ℕ → ℕ → ℕ → Type 0
FoundRun t start n size r =
    IsFirstRun t start n size r
    ⊎ ((r ≡ 0) × ((j : ℕ) → start ≤ j → j + n < size → SomeUsed t j (j + n)))

module _ (p : Pmm) (n size : ℕ) where
  -- a used block in the first run moves the search one block on
  later :
      (start : ℕ) {r : ℕ}
      → SomeUsed (memory_map_test p) start (start + n)
      → FoundRun (memory_map_test p) (suc start) n size r
      → FoundRun (memory_map_test p) start n size r
  later start used (inl found) = inl (record {
    above = omega (arith, found.above);
    inside = found.inside;
    free = found.free;
    first = λ j a b. elim (ℕ_discrete start j) [
      | yes same ↦ rw (← same) used
      | no other ↦ found.first j (omega arith) b
    ];
  })
  later start used (inr (r, all)) = inr (
    r,
    λ j a b. elim (ℕ_discrete start j) [
      | yes same ↦ rw (← same) used
      | no other ↦ all j (omega arith) b
    ],
  )

  first_n_from-FoundRun :
      (rounds start : ℕ)
      → rounds ≡ size - (start + n)
      → FoundRun (memory_map_test p) start n size (first_n_from p start (start + n) rounds)
  unfolding first_n_from
  first_n_from-FoundRun zero start h = inr (refl, λ j a b. absurd (omega arith))
  first_n_from-FoundRun (suc rounds) start h =
      elim (check_range-Checked p start (start + n) (omega arith)) [
        | inl (r, all) ↦ rw r (
            inl (record {
              above = omega arith;
              inside = omega arith;
              free = all;
              first = λ j a b. absurd (omega arith);
            }))
        | inr (r, used) ↦
            let shift : suc start + n ≡ suc (start + n) = omega arith in
            let next = first_n_from-FoundRun rounds (suc start) (omega arith) in
            rw r (later start used (rw shift at next))
      ]

-- `pmm_get_first_n_blocks` returns the start of the first run of `n` free blocks from block 1 on
-- that ends below the last block, or 0 if every such run has a used block.
pub get_first_n_blocks-FoundRun :
    (p : Pmm) (n : ℕ)
    → n + 1 < 2 ^ 32
    → FoundRun (memory_map_test p) 1 n p.system_memory_size (get_first_n_blocks p n)
unfolding get_first_n_blocks
get_first_n_blocks-FoundRun p n h =
    let no_wrap : add32 1 n ≡ 1 + n = omega arith in
    rw no_wrap
      (first_n_from-FoundRun p n p.system_memory_size (p.system_memory_size - (1 + n)) 1 refl)
