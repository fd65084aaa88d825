-- ===== src/String/Copy.antt =====
-- What strcpy and strncpy write.
use native.Mathlib.Decide.{ℕ_discrete}
use native.Mathlib.Nat.{add-zero}
use simple_microkernel.Base.{
  ℕ, zero, suc, ◌+◌, ◌-◌, ◌^◌, ◌≤◌, ◌<◌, ◌≡◌, ◌≢◌, ◌⊎◌, inl, inr, refl, sym, ◌∙◌, ap, eq→==, ne→==,
  update, update_self, update_ne, some, ℤ, pos_part, add32, arith,
}
use simple_microkernel.Memory.{Bytes}
use simple_microkernel.String.{strcpy, strncpy, strncpy_from}
use simple_microkernel.String.Length.{IsString, ScanEnds}

-- From byte `i` on, `m'` has the copy of `k` bytes and a terminator.
pub record CopiedFrom (m : Bytes) (dest src i k : ℕ) (m' : Bytes) : Type 0 where
  pub bytes : (j : ℕ) → i ≤ j → j < k → m' (dest + j) ≡ m (src + j)
  pub terminator : m' (dest + k) ≡ 0
  pub others : (a : ℕ) → (a < dest + i) ⊎ (dest + k < a) → m' a ≡ m a

-- no byte is overwritten before it is read
abbrev pub Apart : ℕ → ℕ → ℕ → Type 0
Apart dest src k = (dest ≤ src) ⊎ (src + k < dest)

module _ (dest src k : ℕ) (fits : dest + k < 2 ^ 32) (fits' : src + k < 2 ^ 32)
    (apart : Apart dest src k) where
  CopiedFrom-end : (m : Bytes) → CopiedFrom m dest src k k (update m (add32 dest k) 0)
  CopiedFrom-end m =
      let e : add32 dest k ≡ dest + k = omega arith in
      rw e (record {
        bytes = λ j a b. absurd (omega arith);
        terminator = update_self m (dest + k) 0;
        others = λ a o. update_ne m (dest + k) 0 a (omega arith);
      })

  CopiedFrom-step :
      (m : Bytes) (i : ℕ) (m' : Bytes)
      → i < k
      → CopiedFrom (update m (dest + i) (m (src + i))) dest src (suc i) k m'
      → CopiedFrom m dest src i k m'
  CopiedFrom-step m i m' h c = record {
    bytes = λ j a b. elim (ℕ_discrete i j) [
      | yes same ↦
          c.others (dest + j) (omega arith)
          ∙ ap (update m (dest + i) (m (src + i))) (omega (arith, same))
          ∙ update_self m (dest + i) (m (src + i))
          ∙ ap (λ (x : ℕ). m (src + x)) same
      | no other ↦
          c.bytes j (omega arith) b ∙ update_ne m (dest + i) (m (src + i)) (src + j) (omega arith)
    ];
    terminator = c.terminator;
    others = λ a o. c.others a (omega arith) ∙ update_ne m (dest + i) (m (src + i)) a (omega arith);
  }

  -- The bytes from `i` on that are still to be copied, and what stops the loop after them.
  record Pending (m : Bytes) (rounds i : ℕ) : Type 0 where
    lower : i ≤ k
    bytes : (j : ℕ) → i ≤ j → j < k → m (src + j) ≢ 0
    stops : (i + rounds ≡ k) ⊎ ((k < i + rounds) × (m (src + k) ≡ 0))

  Pending-step :
      (m : Bytes) (rounds i : ℕ)
      → i < k
      → Pending m (suc rounds) i
      → Pending (update m (dest + i) (m (src + i))) rounds (suc i)
  Pending-step m rounds i h p =
      let keep : (j : ℕ)
          → suc i ≤ j
          → j ≤ k
          → update m (dest + i) (m (src + i)) (src + j) ≡ m (src + j) =
        λ j a b. update_ne m (dest + i) (m (src + i)) (src + j) (omega arith) in
      record {
        lower = omega arith;
        bytes = λ j a b e. p.bytes j (omega arith) b (sym (keep j a (omega arith)) ∙ e);
        stops = elim p.stops [
          | inl e ↦ inl (omega arith)
          | inr (l, z) ↦ inr (omega arith, keep k (omega arith) (omega arith) ∙ z)
        ];
      }

  Pending-stop : (m : Bytes) (rounds i : ℕ) → i ≡ k → Pending m (suc rounds) i → m (src + i) ≡ 0
  Pending-stop m rounds i same p = elim p.stops [
    | inl e ↦ absurd (omega arith)
    | inr (l, z) ↦ ap (λ (j : ℕ). m (src + j)) same ∙ z
  ]

  strncpy_from-CopiedFrom :
      (m : Bytes) (rounds i : ℕ)
      → Pending m rounds i
      → CopiedFrom m dest src i k (strncpy_from rounds m dest src i)
  unfolding strncpy_from
  strncpy_from-CopiedFrom m zero i p =
      let low = p.lower in
      let stop = p.stops in let same : i ≡ k = omega arith in rw same (CopiedFrom-end m)
  strncpy_from-CopiedFrom m (suc rounds) i p =
      let low = p.lower in
      let e : add32 src i ≡ src + i = omega arith in
      let e' : add32 dest i ≡ dest + i = omega arith in
      elim (ℕ_discrete i k) [
        | yes same ↦
            let at_end : CopiedFrom m dest src i k (update m (add32 dest i) 0) =
              rw same (CopiedFrom-end m) in
            rw (e, eq→== (m (src + i)) 0 (Pending-stop m rounds i same p)) at_end
        | no other ↦
            let h : i < k = omega arith in
            let later =
              strncpy_from-CopiedFrom (update m (dest + i) (m (src + i))) rounds (suc i)
                (Pending-step m rounds i h p) in
            let more = ne→== (m (src + i)) 0 (p.bytes i (omega arith) h) in
            rw (e, e', more)
              (CopiedFrom-step m i
                (strncpy_from rounds (update m (dest + i) (m (src + i))) dest src (suc i)) h later)
      ]

  strcpy-CopiedFrom :
      (m : Bytes) (fuel i : ℕ)
      → Pending m fuel i
      → k < i + fuel
      → (m' : Bytes) × (strcpy fuel m (dest + i) (src + i) ≡ some m') × CopiedFrom m dest src i k m'
  unfolding strcpy
  strcpy-CopiedFrom m zero i p f = absurd (let low = p.lower in omega arith)
  strcpy-CopiedFrom m (suc fuel) i p f =
      let low = p.lower in
      let e : add32 src i ≡ src + i = omega arith in
      let e' : add32 dest i ≡ dest + i = omega arith in
      elim (ℕ_discrete i k) [
        | yes same ↦ (
          update m (add32 dest i) 0,
          rw (eq→== (m (src + i)) 0 (Pending-stop m fuel i same p), e') refl,
          rw same (CopiedFrom-end m),
        )
        | no other ↦
            let h : i < k = omega arith in
            let (m', run, c) =
              strcpy-CopiedFrom (update m (dest + i) (m (src + i))) fuel (suc i)
                (Pending-step m fuel i h p) (omega arith) in
            let n1 : add32 (dest + i) 1 ≡ dest + suc i = omega arith in
            let n2 : add32 (src + i) 1 ≡ src + suc i = omega arith in
            (
              m',
              rw (ne→== (m (src + i)) 0 (p.bytes i (omega arith) h), n1, n2) run,
              CopiedFrom-step m i m' h c,
            )
      ]

-- strncpy copies the bytes of the source up to its terminator, but at most `count - 1`, and writes a
-- terminator behind them; no other byte changes. The two must not overlap in such a way that
-- a byte is overwritten before it is read.
pub strncpy_lem :
    (m : Bytes) (dest src k : ℕ) (count : ℤ)
    → ScanEnds m src (pos_part count - 1) k
    → dest + k < 2 ^ 32
    → src + k < 2 ^ 32
    → Apart dest src k
    → CopiedFrom m dest src 0 k (strncpy m dest src count)
unfolding strncpy
strncpy_lem m dest src k count s h g apart =
    let stop : (0 + (pos_part count - 1) ≡ k)
        ⊎ ((k < 0 + (pos_part count - 1)) × (m (src + k) ≡ 0)) =
      elim s.stops [ inl e ↦ inl (omega (arith, e)) | inr (l, z) ↦ inr (omega (arith, l), z) ] in
    strncpy_from-CopiedFrom dest src k h g apart m (pos_part count - 1) 0
      (record { lower = omega arith; bytes = λ j a b. s.bytes j b; stops = stop })

-- strcpy copies a string with its terminator and changes no other byte, with any fuel above the
-- string's length.
pub strcpy_lem :
    (m : Bytes) (dest src n fuel : ℕ)
    → IsString m src n
    → n < fuel
    → dest + n < 2 ^ 32
    → Apart dest src n
    → (m' : Bytes) × (strcpy fuel m dest src ≡ some m') × CopiedFrom m dest src 0 n m'
strcpy_lem m dest src n fuel s f h apart =
    rw (add-zero dest, add-zero src) at
      (strcpy-CopiedFrom dest src n h s.fits apart m fuel 0
        (record {
          lower = omega arith;
          bytes = λ j a b. s.bytes j b;
          stops = inr (omega arith, s.terminator);
        })
        (omega arith))
