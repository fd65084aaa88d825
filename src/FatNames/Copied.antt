-- ===== src/FatNames/Copied.antt =====
-- What fat16_to_proper_string copies.
use native.Mathlib.Decide.{ℕ_discrete}
use native.Mathlib.Nat.{add-zero}
use simple_microkernel.Base.{
  ℕ, zero, suc, ◌+◌, ◌-◌, ◌^◌, ◌≤◌, ◌<◌, ◌≡◌, ◌⊎◌, inl, inr, refl, sym, ◌∙◌, ap, ◌==◌,
  if◌then◌else◌, true, false, ◌||◌, ne→==, some, update, update_self, update_ne, add32, arith,
}
use simple_microkernel.Memory.{Bytes}
use simple_microkernel.Memory.Fill.{Outside}
use simple_microkernel.FatNames.{to_proper_string}

-- The byte ends a name.
abbrev pub IsBlank : ℕ → Type 0
IsBlank c = (c ≡ 0) ⊎ (c ≡ 0x20)

-- The name at `src` has `k` bytes.
pub record HasName (m : Bytes) (src k : ℕ) : Type 0 where
  pub letters : (i : ℕ) → i < k → ¬ IsBlank (m (src + i))
  pub blank : IsBlank (m (src + k))

-- Two objects of `n` and `k` bytes do not overlap.
abbrev pub Apart : ℕ → ℕ → ℕ → ℕ → Type 0
Apart a n b k = (a + n ≤ b) ⊎ (b + k ≤ a)

pub record Copied (m : Bytes) (out src k : ℕ) (r : ℕ × Bytes) : Type 0 where
  pub end : r.0 ≡ out + k
  pub bytes : (i : ℕ) → i < k → r.1 (out + i) ≡ m (src + i)
  pub stop : (r.1 (out + k) ≡ 0) ⊎ (r.1 (out + k) ≡ m (out + k))
  pub others : (a : ℕ) → Outside out (suc k) a → r.1 a ≡ m a

stopped :
    (m : Bytes) (out src : ℕ)
    → IsBlank (m src)
    → Copied m out src 0 (out, if m src == 0x20 then update m out 0 else m)
stopped m out src (inl z) = rw (z) (record {
  end = omega arith;
  bytes = λ i h. absurd (omega arith);
  stop = inr refl;
  others = λ a o. refl;
})
stopped m out src (inr b) = rw (b) (record {
  end = omega arith;
  bytes = λ i h. absurd (omega arith);
  stop = inl (ap (update m out 0) (add-zero out) ∙ update_self m out 0);
  others = λ a o. update_ne m out 0 a (omega arith);
})

copied-step :
    (m : Bytes) (out src k : ℕ) (r : ℕ × Bytes)
    → Apart src (k + 2) out (k + 2)
    → Copied (update m out (m src)) (out + 1) (src + 1) k r
    → Copied m out src (suc k) r
copied-step m out src k r apart c =
    let next = update m out (m src) in
    record {
      end = c.end ∙ omega arith;
      bytes = λ i h. elim (ℕ_discrete i 0) [
        | yes z ↦
            let here : out + i ≡ out = omega arith in
            let there : src + i ≡ src = omega arith in
            rw (here, there) (c.others out (omega arith) ∙ update_self m out (m src))
        | no nz ↦
            let here : out + 1 + (i - 1) ≡ out + i = omega arith in
            let there : src + 1 + (i - 1) ≡ src + i = omega arith in
            ap r.1 (sym here)
            ∙ c.bytes (i - 1) (omega arith)
            ∙ ap next there
            ∙ update_ne m out (m src) (src + i) (omega arith)
      ];
      stop =
          let here : out + 1 + k ≡ out + suc k = omega arith in
          elim c.stop [
            | inl z ↦ inl (ap r.1 (sym here) ∙ z)
            | inr same ↦ inr (
                ap r.1 (sym here)
                ∙ same
                ∙ ap next here
                ∙ update_ne m out (m src) (out + suc k) (omega arith))
          ];
      others = λ a o. c.others a (omega arith) ∙ update_ne m out (m src) a (omega arith);
    }

HasName-tail :
    (m : Bytes) (out src k : ℕ)
    → Apart src (k + 2) out (k + 2)
    → HasName m src (suc k)
    → HasName (update m out (m src)) (src + 1) k
HasName-tail m out src k apart n =
    let same = λ (i : ℕ) (h : i < k + 1).
      ap (update m out (m src)) (let e : src + 1 + i ≡ src + suc i = omega arith in e)
      ∙ update_ne m out (m src) (src + suc i) (omega arith) in
    record {
      letters = λ i h. rw (same i (omega arith)) (n.letters (suc i) (omega arith));
      blank = rw (same k (omega arith)) n.blank;
    }

no_blank : (c : ℕ) → ¬ IsBlank c → (c == 0 || c == 0x20) ≡ false
no_blank c h = rw (ne→== c 0 (λ e. h (inl e)), ne→== c 0x20 (λ e. h (inr e))) refl

a_blank : (c : ℕ) → IsBlank c → (c == 0 || c == 0x20) ≡ true
a_blank c (inl e) = rw e refl
a_blank c (inr e) = rw e refl

one_more :
    (fuel k : ℕ) (m : Bytes) (out src : ℕ)
    → ¬ IsBlank (m src)
    → out + 1 < 2 ^ 32
    → src + 1 < 2 ^ 32
    → Apart src (k + 2) out (k + 2)
    → (r : ℕ × Bytes) × (to_proper_string fuel (update m out (m src)) (out + 1) (src + 1) ≡ some r)
      × Copied (update m out (m src)) (out + 1) (src + 1) k r
    → (r : ℕ × Bytes) × (to_proper_string (suc fuel) m out src ≡ some r)
      × Copied m out src (suc k) r
unfolding to_proper_string
one_more fuel k m out src letter g h apart (r, e, c) =
    let next : add32 out 1 ≡ out + 1 = omega arith in
    let next' : add32 src 1 ≡ src + 1 = omega arith in
    (r, rw (no_blank (m src) letter, next, next') e, copied-step m out src k r apart c)

pub to_proper_string-Copied :
    (fuel k : ℕ) (m : Bytes) (out src : ℕ)
    → k < fuel
    → HasName m src k
    → out + k < 2 ^ 32
    → src + k < 2 ^ 32
    → Apart src (k + 1) out (k + 1)
    → (r : ℕ × Bytes) × (to_proper_string fuel m out src ≡ some r) × Copied m out src k r
unfolding to_proper_string
to_proper_string-Copied zero k m out src enough n g h apart = absurd (omega arith)
to_proper_string-Copied (suc fuel) zero m out src enough n g h apart =
    let blank : IsBlank (m src) = rw (ap m (sym (add-zero src))) n.blank in
    (_, rw (a_blank (m src) blank) refl, stopped m out src blank)
to_proper_string-Copied (suc fuel) (suc k) m out src enough n g h apart =
    let letter : ¬ IsBlank (m src) = rw (ap m (sym (add-zero src))) (n.letters 0 (omega arith)) in
    one_more fuel k m out src letter (omega arith) (omega arith) (omega arith) (
      to_proper_string-Copied fuel k (update m out (m src)) (out + 1) (src + 1) (omega arith)
        (HasName-tail m out src k (omega arith) n) (omega arith) (omega arith) (omega arith))
