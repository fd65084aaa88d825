-- ===== src/Terminal/Decimal.antt =====
-- The characters that kernel_print_uint prints are the decimal digits of its number.
use native.Mathlib.Decide.{ℕ_discrete}
use native.Mathlib.Nat.{zero-add}
use simple_microkernel.Base.{
  ℕ, zero, suc, ◌+◌, ◌-◌, ◌*◌, ◌/◌, ◌%◌, ◌^◌, ◌≤◌, ◌<◌, ◌≡◌, ◌≢◌, ◌⊎◌, inl, inr, refl, sym, ◌∙◌, ap,
  ltb, Bool, false, if◌then◌else◌, ◌==◌, ltb→lt, Bool-cases, eq→==, ne→==, update, update_self,
  update_ne, arith,
}
use simple_microkernel.Terminal.{
  Terminal, put_digits, reverse_chars, uint_chars, kernel_print_string, kernel_print_uint,
}

-- the powers of ten
abbrev tens : ℕ → ℕ
tens zero = 1
tens (suc d) = 10 * tens d

-- the number that `k` characters from `i` on stand for, the last digit first
abbrev little : (ℕ → ℕ) → ℕ → ℕ → ℕ
little a i zero = 0
little a i (suc k) = (a i - 48) + 10 * little a (suc i) k

-- the number that the first `k` characters stand for, as it is read
abbrev pub decimal : (ℕ → ℕ) → ℕ → ℕ
decimal a zero = 0
decimal a (suc k) = 10 * decimal a k + (a k - 48)

abbrev pub AreDigits : (ℕ → ℕ) → ℕ → ℕ → Type 0
AreDigits a i end = (j : ℕ) → i ≤ j → j < end → (48 ≤ a j) × (a j < 58)

record DigitsPut (d n : ℕ) (a : ℕ → ℕ) (i : ℕ) (r : (ℕ → ℕ) × ℕ) : Type 0 where
  count : ℕ
  end : r.1 ≡ i + count
  few : count ≤ d
  value : little r.0 i count ≡ n
  chars : AreDigits r.0 i (i + count)
  below : (j : ℕ) → j < i → r.0 j ≡ a j

none-DigitsPut : (d n : ℕ) (a : ℕ → ℕ) (i : ℕ) → n ≡ 0 → DigitsPut d n a i (a, i)
none-DigitsPut d n a i e = record {
  count = 0;
  end = omega arith;
  few = omega arith;
  value = sym e;
  chars = λ j x y. absurd (omega arith);
  below = λ j x. refl;
}

one_more-DigitsPut :
    (d n : ℕ) (a : ℕ → ℕ) (i : ℕ) (r : (ℕ → ℕ) × ℕ)
    → DigitsPut d (n / 10) (update a i (48 + n % 10)) (suc i) r
    → DigitsPut (suc d) n a i r
one_more-DigitsPut d n a i r p =
    let count = p.count in
    let few = p.few in
    let end = p.end in
    let value = p.value in
    let here : r.0 i ≡ 48 + n % 10 = p.below i (omega arith) ∙ update_self a i (48 + n % 10) in
    record {
      count = suc count;
      end = omega arith;
      few = omega arith;
      value = omega arith;
      chars = λ j x y. elim (ℕ_discrete j i) [
        | yes same ↦ rw same (omega arith)
        | no other ↦ p.chars j (omega arith) (omega arith)
      ];
      below = λ j x. p.below j (omega arith) ∙ update_ne a i (48 + n % 10) j (omega arith);
    }

put_digits-DigitsPut :
    (fuel d n : ℕ) (a : ℕ → ℕ) (i : ℕ)
    → d ≤ fuel
    → n < tens d
    → DigitsPut d n a i (put_digits fuel n a i)
unfolding put_digits
put_digits-DigitsPut zero zero n a i h l = none-DigitsPut 0 n a i (omega arith)
put_digits-DigitsPut zero (suc d) n a i h l = absurd (omega arith)
put_digits-DigitsPut (suc fuel) zero n a i h l =
    let z : n ≡ 0 = omega arith in rw (eq→== n 0 z) (none-DigitsPut 0 n a i z)
put_digits-DigitsPut (suc fuel) (suc d) n a i h l = elim (ℕ_discrete n 0) [
  | yes z ↦ rw (eq→== n 0 z) (none-DigitsPut (suc d) n a i z)
  | no more ↦ rw (ne→== n 0 more) (
      one_more-DigitsPut d n a i (put_digits fuel (n / 10) (update a i (48 + n % 10)) (suc i)) (
        put_digits-DigitsPut fuel d (n / 10) (update a i (48 + n % 10)) (suc i) (omega arith)
          (omega arith)))
]

module _ (a : ℕ → ℕ) (s e : ℕ) where
  record Reversed (r : ℕ → ℕ) : Type 0 where
    inside : (j : ℕ) → s ≤ j → j ≤ e → r j ≡ a (s + e - j)
    outside : (j : ℕ) → (j < s) ⊎ (e < j) → r j ≡ a j

still-Reversed : (s e : ℕ) (a : ℕ → ℕ) → e ≤ s → Reversed a s e a
still-Reversed s e a h = record { inside = λ j x y. ap a (omega arith); outside = λ j o. refl }

swapped-Reversed :
    (s e : ℕ) (a : ℕ → ℕ)
    → s < e
    → (r : ℕ → ℕ) → Reversed (update (update a s (a e)) e (a s)) (suc s) (e - 1) r
    → Reversed a s e r
swapped-Reversed s e a h r rev =
    let b = update a s (a e) in
    let at_s : update b e (a s) s ≡ a e =
      update_ne b e (a s) s (omega arith) ∙ update_self a s (a e) in
    let at_e : update b e (a s) e ≡ a s = update_self b e (a s) in
    let other : (j : ℕ) → j ≢ s → j ≢ e → update b e (a s) j ≡ a j =
      λ j p q. update_ne b e (a s) j q ∙ update_ne a s (a e) j p in
    record {
      inside = λ j x y. elim (ℕ_discrete j s) [
        | yes first ↦
            rev.outside j (omega arith)
            ∙ ap (update b e (a s)) first
            ∙ at_s
            ∙ ap a (omega (arith, first))
        | no later ↦ elim (ℕ_discrete j e) [
          | yes last ↦
              rev.outside j (omega arith)
              ∙ ap (update b e (a s)) last
              ∙ at_e
              ∙ ap a (omega (arith, last))
          | no earlier ↦
              rev.inside j (omega arith) (omega arith)
              ∙ other (suc s + (e - 1) - j) (omega arith) (omega arith)
              ∙ ap a (omega arith)
        ]
      ];
      outside = λ j o. rev.outside j (omega arith) ∙ other j (omega arith) (omega arith);
    }

reverse_chars-Reversed :
    (fuel s e : ℕ) (a : ℕ → ℕ) → e ≤ s + fuel → Reversed a s e (reverse_chars fuel s e a)
unfolding reverse_chars
reverse_chars-Reversed zero s e a h = still-Reversed s e a (omega arith)
reverse_chars-Reversed (suc fuel) s e a h = elim (Bool-cases (ltb s e)) [
  | inl less ↦
      let l = ltb→lt s e less in
      rw less (
        swapped-Reversed s e a l _ (
          reverse_chars-Reversed fuel (suc s) (e - 1) (update (update a s (a e)) e (a s))
            (omega arith)))
  | inr not_less ↦ rw not_less (still-Reversed s e a (ground (arith, not_less)))
]

-- big-endian reading of the reversed characters
decimal-little :
    (a b : ℕ → ℕ) (m k : ℕ)
    → k ≤ m
    → ((j : ℕ) → j < m → b j ≡ a (m - 1 - j))
    → decimal b k ≡ little a (m - k) k
decimal-little a b m zero h rev = refl
decimal-little a b m (suc k) h rev =
    let next : suc (m - suc k) ≡ m - k = omega arith in
    let here : m - 1 - k ≡ m - suc k = omega arith in
    rw (next, decimal-little a b m k (omega arith) rev, rev k (omega arith), here) (omega arith)

-- The characters that stand for the number, with their count.
pub record Decimal (n : ℕ) (r : (ℕ → ℕ) × ℕ) : Type 0 where
  pub length : r.1 ≤ 10
  pub value : decimal r.0 r.1 ≡ n
  pub chars : AreDigits r.0 0 r.1
  pub terminator : r.0 r.1 ≡ 0

finish-Decimal :
    (n : ℕ) (buffer : ℕ → ℕ) (r : (ℕ → ℕ) × ℕ)
    → n ≢ 0
    → DigitsPut 10 n buffer 0 r
    → Decimal n (reverse_chars 11 0 (r.1 - 1) (update r.0 r.1 0), r.1)
finish-Decimal n buffer (a, m) ne p =
    let few = p.few in
    let end : m ≡ p.count = p.end ∙ zero-add p.count in
    let value : little a 0 m ≡ n = rw end p.value in
    let some_digit : m ≢ 0 = λ z. ne (sym (rw z at value)) in
    let rev = reverse_chars-Reversed 11 0 (m - 1) (update a m 0) (omega arith) in
    let chars : (j : ℕ) → j < m → reverse_chars 11 0 (m - 1) (update a m 0) j ≡ a (m - 1 - j) =
      λ j h.
        rev.inside j (omega arith) (omega arith)
        ∙ update_ne a m 0 (0 + (m - 1) - j) (omega arith)
        ∙ ap a (omega arith) in
    let whole : m - m ≡ 0 = omega arith in
    record {
      length = omega arith;
      value =
          decimal-little a (reverse_chars 11 0 (m - 1) (update a m 0)) m m (omega arith) chars
          ∙ ap (λ (i : ℕ). little a i m) whole
          ∙ value;
      chars = λ j x y. rw (chars j y) (p.chars (m - 1 - j) (omega arith) (omega arith));
      terminator = rev.outside m (omega arith) ∙ update_self a m 0;
    }

uint_chars-Decimal : (n : ℕ) (buffer : ℕ → ℕ) → n ≢ 0 → n < 2 ^ 32 → Decimal n (uint_chars n buffer)
unfolding uint_chars
uint_chars-Decimal n buffer ne l =
    finish-Decimal n buffer (put_digits 11 n buffer 0) ne
      (put_digits-DigitsPut 11 10 n buffer 0 (omega arith) (omega (arith, l)))

kernel_print_uint-nonzero :
    (t : Terminal) (buffer : ℕ → ℕ) (n : ℕ)
    → n == 0 ≡ false
    → kernel_print_uint t buffer n
      ≡ kernel_print_string t (uint_chars n buffer).0 (uint_chars n buffer).1
unfolding kernel_print_uint
kernel_print_uint-nonzero t buffer n e =
    ap
      (λ (b : Bool).
        kernel_print_string (if b then kernel_print_string t (λ i. 48) 1 else t)
          (uint_chars n buffer).0 (uint_chars n buffer).1)
      e

-- For every 32-bit number but 0, kernel_print_uint prints at most ten characters as
-- kernel_print_string prints them. All of them are decimal digits, they read as the number, and a 0
-- stands behind the last one.
pub kernel_print_uint-Decimal :
    (t : Terminal) (buffer : ℕ → ℕ) (n : ℕ)
    → n ≢ 0
    → n < 2 ^ 32
    → (r : (ℕ → ℕ) × ℕ) × (kernel_print_uint t buffer n ≡ kernel_print_string t r.0 r.1)
      × Decimal n r
kernel_print_uint-Decimal t buffer n ne l = (
  uint_chars n buffer,
  kernel_print_uint-nonzero t buffer n (ne→== n 0 ne),
  uint_chars-Decimal n buffer ne l,
)
