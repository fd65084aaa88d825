-- ===== src/String/Length.antt =====
-- What strlen and strnlen return.
use native.Mathlib.Decide.{ℕ_discrete}
use native.Mathlib.Nat.{add-zero}
use simple_microkernel.Base.{
  ℕ, zero, suc, ◌+◌, ◌^◌, ◌<◌, ◌≡◌, ◌≢◌, ◌⊎◌, inl, inr, refl, ◌∙◌, ap, eq→==, ne→==, some, ℤ,
  pos_part, add32, arith,
}
use simple_microkernel.Memory.{Bytes}
use simple_microkernel.String.{strlen, strlen_from, strnlen, strnlen_from}

-- no zero among the first `n` bytes
abbrev pub NonZero : Bytes → ℕ → ℕ → Type 0
NonZero m ptr n = (i : ℕ) → i < n → m (ptr + i) ≢ 0

-- a string of `n` bytes and its terminator
pub record IsString (m : Bytes) (ptr n : ℕ) : Type 0 where
  pub fits : ptr + n < 2 ^ 32
  pub bytes : NonZero m ptr n
  pub terminator : m (ptr + n) ≡ 0

-- a scan of at most `limit` bytes stops after `k`
pub record ScanEnds (m : Bytes) (ptr limit k : ℕ) : Type 0 where
  pub bytes : NonZero m ptr k
  pub stops : (k ≡ limit) ⊎ ((k < limit) × (m (ptr + k) ≡ 0))

module _ (m : Bytes) (ptr : ℕ) where
  strlen_from-IsString :
      (fuel i k n : ℕ)
      → i + k ≡ n
      → IsString m ptr n
      → k < fuel
      → strlen_from fuel m (ptr + i) i ≡ some n
  unfolding strlen_from
  strlen_from-IsString zero i k n e s f = absurd (omega arith)
  strlen_from-IsString (suc fuel) i zero n e s f =
      let same : i ≡ n = omega arith in
      rw (eq→== (m (ptr + i)) 0 (ap (λ (j : ℕ). m (ptr + j)) same ∙ s.terminator), same) refl
  strlen_from-IsString (suc fuel) i (suc k) n e s f =
      let fits = s.fits in
      let next : add32 (ptr + i) 1 ≡ ptr + suc i = omega arith in
      rw (ne→== (m (ptr + i)) 0 (s.bytes i (omega arith)), next)
        (strlen_from-IsString fuel (suc i) k n (omega arith) s (omega arith))

  NonZero-one_more : (i : ℕ) → NonZero m ptr i → m (ptr + i) ≢ 0 → NonZero m ptr (suc i)
  NonZero-one_more i before ne j h = elim (ℕ_discrete j i) [
    | yes same ↦ rw same ne
    | no other ↦ before j (omega arith)
  ]

  strnlen_from-ScanEnds :
      (rounds i limit : ℕ)
      → i + rounds ≡ limit
      → ptr + limit < 2 ^ 32
      → NonZero m ptr i
      → ScanEnds m ptr limit (strnlen_from rounds m (ptr + i) i)
  unfolding strnlen_from
  strnlen_from-ScanEnds zero i limit e h before = record {
    bytes = before;
    stops = inl (omega arith);
  }
  strnlen_from-ScanEnds (suc rounds) i limit e h before = elim (ℕ_discrete (m (ptr + i)) 0) [
    | yes end ↦
        rw (eq→== (m (ptr + i)) 0 end) (record { bytes = before; stops = inr (omega arith, end) })
    | no other ↦
        let next : add32 (ptr + i) 1 ≡ ptr + suc i = omega arith in
        rw (ne→== (m (ptr + i)) 0 other, next)
          (strnlen_from-ScanEnds rounds (suc i) limit (omega arith) h
            (NonZero-one_more i before other))
  ]

-- strlen finds the length of a string, with any fuel above it.
pub strlen_lem :
    (m : Bytes) (ptr n fuel : ℕ) → IsString m ptr n → n < fuel → strlen fuel m ptr ≡ some n
unfolding strlen
strlen_lem m ptr n fuel s f =
    rw add-zero at (strlen_from-IsString m ptr fuel 0 n n (omega arith) s f)

-- strnlen counts the bytes up to the first zero, but not past the bound. The bytes in question must
-- not reach the end of the address space.
pub strnlen_lem :
    (m : Bytes) (ptr : ℕ) (max : ℤ)
    → ptr + pos_part max < 2 ^ 32
    → ScanEnds m ptr (pos_part max) (strnlen m ptr max)
unfolding strnlen
strnlen_lem m ptr max h = rw (add-zero ptr) at (
    strnlen_from-ScanEnds m ptr (pos_part max) 0 (pos_part max) (omega arith) h
      (λ i l. absurd (omega arith)))
