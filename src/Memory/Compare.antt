-- ===== src/Memory/Compare.antt =====
-- What memcmp returns.
use native.Mathlib.Decide.{ℕ_discrete}
use native.Mathlib.Nat.{add-zero, zero-add}
use simple_microkernel.Base.{
  ℕ, zero, suc, ◌+◌, ◌^◌, ◌≤◌, ◌<◌, ◌≡◌, ◌≢◌, ◌⊎◌, inl, inr, refl, ◌==◌, if◌then◌else◌, Bool-cases,
  ==→eq, ==→ne, add32, arith, ℤ, pos, minus_one, lt_ℤ, char_value,
}
use simple_microkernel.Memory.{Bytes, memcmp, memcmp_from}

-- the sign of two different chars
abbrev pub char_order : ℕ → ℕ → ℤ
char_order a b = if lt_ℤ (char_value a) (char_value b) then minus_one else pos 1

module _ (m : Bytes) (s1 s2 : ℕ) where
  abbrev pub SameBytes : ℕ → ℕ → Type 0
  SameBytes i end = (j : ℕ) → i ≤ j → j < end → m (s1 + j) ≡ m (s2 + j)

  -- From byte `i` on the objects are equal up to `end`, or they first differ at `k`.
  abbrev pub ComparedFrom : ℕ → ℕ → ℤ → Type 0
  ComparedFrom i end r =
      ((r ≡ pos 0) × SameBytes i end)
      ⊎ ((k : ℕ) × (k < end)
          × (m (s1 + k) ≢ m (s2 + k))
          × SameBytes i k
          × (r ≡ char_order (m (s1 + k)) (m (s2 + k))))

  one_more : (i : ℕ) {end : ℕ} → m (s1 + i) ≡ m (s2 + i) → SameBytes (suc i) end → SameBytes i end
  one_more i e rest j a b = elim (ℕ_discrete i j) [
    | yes same ↦ rw (← same) e
    | no other ↦ rest j (omega arith) b
  ]

  memcmp_from-ComparedFrom :
      (i n : ℕ)
      → s1 + i + n ≤ 2 ^ 32
      → s2 + i + n ≤ 2 ^ 32
      → ComparedFrom i (i + n) (memcmp_from m (s1 + i) (s2 + i) n)
  unfolding memcmp_from
  memcmp_from-ComparedFrom i zero h g = inl (refl, λ j a b. absurd (omega arith))
  memcmp_from-ComparedFrom i (suc zero) h g = elim (Bool-cases (m (s1 + i) == m (s2 + i))) [
    | inl e ↦ rw e (inl (refl, one_more i (==→eq _ _ e) (λ j a b. absurd (omega arith))))
    | inr e ↦ rw e (inr (i, omega arith, ==→ne _ _ e, (λ j a b. absurd (omega arith)), refl))
  ]
  memcmp_from-ComparedFrom i (suc (suc n)) h g = elim (Bool-cases (m (s1 + i) == m (s2 + i))) [
    | inl e ↦
        let next1 : add32 (s1 + i) 1 ≡ s1 + suc i = omega arith in
        let next2 : add32 (s2 + i) 1 ≡ s2 + suc i = omega arith in
        rw (e, next1, next2)
          (elim (memcmp_from-ComparedFrom (suc i) (suc n) (omega arith) (omega arith)) [
            | inl (r, same) ↦ inl (r, one_more i (==→eq _ _ e) (λ j a b. same j a (omega arith)))
            | inr (k, l, ne, same, r) ↦ inr (k, omega arith, ne, one_more i (==→eq _ _ e) same, r)
          ])
    | inr e ↦ rw e (inr (i, omega arith, ==→ne _ _ e, (λ j a b. absurd (omega arith)), refl))
  ]

-- memcmp returns 0 if the objects are equal, and otherwise -1 or 1 by the first bytes that differ,
-- read as signed chars.
pub memcmp_lem :
    (m : Bytes) (s1 s2 count : ℕ)
    → s1 + count ≤ 2 ^ 32
    → s2 + count ≤ 2 ^ 32
    → ComparedFrom m s1 s2 0 count (memcmp m s1 s2 count)
unfolding memcmp
memcmp_lem m s1 s2 count h g =
    rw (add-zero s1, add-zero s2, zero-add count) at
      (memcmp_from-ComparedFrom m s1 s2 0 count (omega arith) (omega arith))
