-- ===== src/Vfs/Mode.antt =====
-- Which mode a string stands for.
use simple_microkernel.Base.{
  zero, suc, sub_ℕ, ◌∙◌, ltb, leb, lt→ltb, ℕ, ◌+◌, ◌-◌, ◌≤◌, ◌<◌, ◌≡◌, ◌≢◌, ◌⊎◌, inl, inr, refl,
  ◌==◌, if◌then◌else◌, not, ◌&&◌, true, false, Bool-cases, eq→==, ne→==, ℤ, pos, ◌-ℤ◌, char_value,
  arith,
}
use native.Mathlib.Decide.{ℕ_discrete}
use simple_microkernel.Memory.{Bytes}
use simple_microkernel.String.{to_upper, istrncmp}
use simple_microkernel.PathParser.{is_zero}
use simple_microkernel.Vfs.{FileMode, Literals, file_mode_get_by_string}

-- The literals hold the letters.
pub record HoldsModes (l : Literals) (m : Bytes) : Type 0 where
  pub r : m l.r ≡ 0x72
  pub w : m l.w ≡ 0x77
  pub a : m l.a ≡ 0x61

-- The byte is a letter in one of its two cases.
abbrev pub IsLetter : ℕ → ℕ → Type 0
IsLetter lower c = (c ≡ lower) ⊎ (c + 32 ≡ lower)

abbrev same_letter : ℕ → ℕ → ℤ
same_letter c d =
    if not (c == d) && not (to_upper c == to_upper d) then char_value c -ℤ char_value d else pos 0

upper_of : (lower : ℕ) → 97 ≤ lower → lower < 123 → to_upper lower ≡ lower - 32
unfolding to_upper
upper_of lower h k = ground arith

upper-IsLetter :
    (c lower : ℕ) → c < 256 → 97 ≤ lower → lower < 123 → to_upper c ≡ lower - 32 → IsLetter lower c
unfolding to_upper
upper-IsLetter c lower b h k e = ground arith

letters_agree :
    (c lower : ℕ) → IsLetter lower c → 97 ≤ lower → lower < 123 → to_upper c ≡ to_upper lower
unfolding to_upper
letters_agree c lower e h k = ground arith

not_zero : (n : ℕ) → n ≢ 0 → is_zero (pos n) ≡ false
not_zero zero h = absurd (h refl)
not_zero (suc n) h = refl

difference : (a b : ℕ) → a ≢ b → is_zero (sub_ℕ a b) ≡ false
difference a b ne = elim (Bool-cases (leb b a)) [
  | inl up ↦ rw up (not_zero (a - b) (ground (arith, up)))
  | inr down ↦ rw down refl
]

different : (c d : ℕ) → c < 256 → d < 128 → c ≢ d → is_zero (char_value c -ℤ char_value d) ≡ false
different c d b h ne = elim (Bool-cases (ltb c 128)) [
  | inl low ↦ rw (low, lt→ltb d 128 h) (difference (c + 0) (d + 0) (omega arith))
  | inr high ↦ rw (high, lt→ltb d 128 h) (difference (0 + 0) (d + suc (256 - c - 1)) (omega arith))
]

-- istrncmp of one byte with a lower-case letter
abbrev Answer : ℕ → ℕ → ℤ → Type 0
Answer lower c r =
    ((is_zero r ≡ true) × IsLetter lower c) ⊎ ((is_zero r ≡ false) × ¬ IsLetter lower c)

first_letter :
    (m : Bytes) (a b lower : ℕ)
    → m b ≡ lower
    → m a < 256
    → 97 ≤ lower
    → lower < 123
    → Answer lower (m a) (istrncmp m a b 1)
unfolding istrncmp
first_letter m a b lower e h k l = rw e (elim (ℕ_discrete (m a) lower) [
  | yes same ↦ rw (eq→== (m a) lower same) (inl (refl, inl same))
  | no other ↦ elim (ℕ_discrete (to_upper (m a)) (to_upper lower)) [
    | yes same ↦
        rw (ne→== (m a) lower other, eq→== (to_upper (m a)) (to_upper lower) same)
          (inl (refl, upper-IsLetter (m a) lower h k l (same ∙ upper_of lower k l)))
    | no upper ↦
        rw (ne→== (m a) lower other, ne→== (to_upper (m a)) (to_upper lower) upper)
          (inr (
            different (m a) lower h (omega arith) other,
            λ x. upper (letters_agree (m a) lower x k l),
          ))
  ]
])

-- A string whose first letter is R stands for reading, one with another first letter than W for
-- writing, and one with W for appending; no string is invalid.
pub file_mode_get_by_string-cases :
    (l : Literals) (m : Bytes) (str : ℕ)
    → HoldsModes l m
    → m str < 256
    → (IsLetter 0x72 (m str) × (file_mode_get_by_string l m str ≡ FileMode.read))
      ⊎ (IsLetter 0x77 (m str) × (file_mode_get_by_string l m str ≡ FileMode.append))
      ⊎ ((¬ IsLetter 0x72 (m str))
          × (¬ IsLetter 0x77 (m str))
          × (file_mode_get_by_string l m str ≡ FileMode.write))
unfolding file_mode_get_by_string
file_mode_get_by_string-cases l m str v h =
    elim (first_letter m str l.r 0x72 v.r h (omega arith) (omega arith)) [
      | inl (r, is_r) ↦ rw r (inl (is_r, refl))
      | inr (r, not_r) ↦ elim (first_letter m str l.w 0x77 v.w h (omega arith) (omega arith)) [
        | inr (w, not_w) ↦ rw (r, w) (inr (inr (not_r, not_w, refl)))
        | inl (w, is_w) ↦ elim (first_letter m str l.a 0x61 v.a h (omega arith) (omega arith)) [
          | inl (a, is_a) ↦ absurd (omega arith)
          | inr (a, not_a) ↦ rw (r, w, a) (inr (inl (is_w, refl)))
        ]
      ]
    ]
