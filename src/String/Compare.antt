-- ===== src/String/Compare.antt =====
-- What strcmp and istrncmp answer.
use native.Mathlib.Decide.{ℕ_discrete}
use native.Mathlib.Nat.{add-zero}
use simple_microkernel.Base.{
  ℕ, zero, suc, ◌+◌, ◌^◌, ◌≤◌, ◌<◌, ◌≡◌, ◌≢◌, ◌⊎◌, inl, inr, refl, ap, ◌==◌, eq→==, ne→==, not,
  ◌&&◌, Bool, true, false, ℤ, pos, pos_part, char_value, ◌-ℤ◌, add32, arith,
}
use simple_microkernel.Memory.{Bytes}
use simple_microkernel.String.{to_upper, strcmp, strcmp_from, istrncmp}

module _ (f : ℕ → ℕ) (m : Bytes) (a b : ℕ) where
  -- The strings agree under `f` on the bytes from `i` up to `end`.
  abbrev pub Agree : ℕ → ℕ → Type 0
  Agree i end = (j : ℕ) → i ≤ j → j < end → f (m (a + j)) ≡ f (m (b + j))

  -- The first difference is at `k`.
  pub record FirstDifference (i end k : ℕ) : Type 0 where
    pub lower : i ≤ k
    pub inside : k < end
    pub before : Agree i k
    pub differ : f (m (a + k)) ≢ f (m (b + k))

  pub Agree-one_more : (i end : ℕ) → f (m (a + i)) ≡ f (m (b + i)) → Agree (suc i) end → Agree i end
  Agree-one_more i end e rest j l u = elim (ℕ_discrete i j) [
    | yes same ↦ rw (← same) e
    | no other ↦ rest j (omega arith) u
  ]

  pub FirstDifference-one_more :
      (i end k : ℕ)
      → f (m (a + i)) ≡ f (m (b + i))
      → FirstDifference (suc i) end k
      → FirstDifference i end k
  FirstDifference-one_more i end k e d =
      let l = d.lower in
      record {
        lower = omega arith;
        inside = d.inside;
        before = Agree-one_more i k e d.before;
        differ = d.differ;
      }

  pub FirstDifference-here :
      (i end : ℕ) → i < end → f (m (a + i)) ≢ f (m (b + i)) → FirstDifference i end i
  FirstDifference-here i end l ne = record {
    lower = omega arith;
    inside = l;
    before = λ j x y. absurd (omega arith);
    differ = ne;
  }

-- A comparison of `end` bytes answers `same`, or what `other` says of the first difference.
abbrev pub Compared {ℓ} : {A : Type ℓ} → (ℕ → ℕ) → Bytes → ℕ → ℕ → ℕ → ℕ → A → (ℕ → A) → A → Type ℓ
Compared f m a b i end same other r =
    ((r ≡ same) × Agree f m a b i end) ⊎ ((k : ℕ) × FirstDifference f m a b i end k × (r ≡ other k))

-- the condition of the return in the loop of istrncmp
abbrev returns : ℕ → ℕ → Bool
returns x y = not (x == y) && not (to_upper x == to_upper y)

returns_same : (x y : ℕ) → to_upper x ≡ to_upper y → returns x y ≡ false
returns_same x y e = elim (ℕ_discrete x y) [
  | yes same ↦ rw (eq→== x y same) refl
  | no other ↦ rw (ne→== x y other, eq→== (to_upper x) (to_upper y) e) refl
]

returns_other : (x y : ℕ) → to_upper x ≢ to_upper y → returns x y ≡ true
returns_other x y ne =
    rw (ne→== x y (λ e. ne (ap to_upper e)), ne→== (to_upper x) (to_upper y) ne) refl

module _ (m : Bytes) (a b : ℕ) where
  strcmp_from-Compared :
      (rounds i end : ℕ)
      → i + rounds ≡ end
      → a + end < 2 ^ 32
      → b + end < 2 ^ 32
      → Compared (λ x. x) m a b i end 1 (λ k. 0) (strcmp_from rounds m (a + i) (b + i))
  unfolding strcmp_from
  strcmp_from-Compared zero i end e h g = inl (refl, λ j x y. absurd (omega arith))
  strcmp_from-Compared (suc rounds) i end e h g = elim (ℕ_discrete (m (a + i)) (m (b + i))) [
    | yes same ↦
        let n1 : add32 (a + i) 1 ≡ a + suc i = omega arith in
        let n2 : add32 (b + i) 1 ≡ b + suc i = omega arith in
        rw (eq→== (m (a + i)) (m (b + i)) same, n1, n2)
          (elim (strcmp_from-Compared rounds (suc i) end (omega arith) h g) [
            | inl (r, agree) ↦ inl (r, Agree-one_more (λ x. x) m a b i end same agree)
            | inr (k, d, r) ↦ inr (k, FirstDifference-one_more (λ x. x) m a b i end k same d, r)
          ])
    | no other ↦
        rw (ne→== (m (a + i)) (m (b + i)) other)
          (inr (i, FirstDifference-here (λ x. x) m a b i end (omega arith) other, refl))
  ]

  -- the difference that istrncmp returns
  abbrev pub char_difference : ℕ → ℤ
  char_difference k = char_value (m (a + k)) -ℤ char_value (m (b + k))

  istrncmp-Compared :
      (rounds i end : ℕ)
      → i + rounds ≡ end
      → a + end < 2 ^ 32
      → b + end < 2 ^ 32
      → Compared to_upper m a b i end (pos 0) char_difference (istrncmp m (a + i) (b + i) rounds)
  unfolding istrncmp
  istrncmp-Compared zero i end e h g = inl (refl, λ j x y. absurd (omega arith))
  istrncmp-Compared (suc rounds) i end e h g =
      elim (ℕ_discrete (to_upper (m (a + i))) (to_upper (m (b + i)))) [
        | yes same ↦
            let n1 : add32 (a + i) 1 ≡ a + suc i = omega arith in
            let n2 : add32 (b + i) 1 ≡ b + suc i = omega arith in
            rw (returns_same (m (a + i)) (m (b + i)) same, n1, n2)
              (elim (istrncmp-Compared rounds (suc i) end (omega arith) h g) [
                | inl (r, agree) ↦ inl (r, Agree-one_more to_upper m a b i end same agree)
                | inr (k, d, r) ↦ inr (k, FirstDifference-one_more to_upper m a b i end k same d, r)
              ])
        | no other ↦
            rw (returns_other (m (a + i)) (m (b + i)) other)
              (inr (i, FirstDifference-here to_upper m a b i end (omega arith) other, refl))
      ]

-- strcmp answers 1 if the strings agree on all `len` bytes, and 0 if some byte differs.
pub strcmp_lem :
    (m : Bytes) (a b : ℕ) (len : ℤ)
    → a + pos_part len < 2 ^ 32
    → b + pos_part len < 2 ^ 32
    → Compared (λ x. x) m a b 0 (pos_part len) 1 (λ k. 0) (strcmp m a b len)
unfolding strcmp
strcmp_lem m a b len h g =
    rw (add-zero a, add-zero b) at
      (strcmp_from-Compared m a b (pos_part len) 0 (pos_part len) (omega arith) h g)

-- istrncmp answers 0 if the first `n` bytes agree up to the case of their letters, and otherwise the
-- difference of the first two that do not, as signed chars.
pub istrncmp_lem :
    (m : Bytes) (a b n : ℕ)
    → a + n < 2 ^ 32
    → b + n < 2 ^ 32
    → Compared to_upper m a b 0 n (pos 0) (char_difference m a b) (istrncmp m a b n)
istrncmp_lem m a b n h g =
    rw (add-zero a, add-zero b) at (istrncmp-Compared m a b n 0 n (omega arith) h g)
