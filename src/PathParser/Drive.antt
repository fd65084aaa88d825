-- ===== src/PathParser/Drive.antt =====
-- Which paths have a drive number.
use native.Mathlib.Nat.{add-zero}
use simple_microkernel.Base.{
  ℕ, zero, suc, ◌+◌, ◌-◌, ◌^◌, ◌≤◌, ◌<◌, ◌≡◌, ◌≢◌, inl, inr, refl, sym, ◌∙◌, ap, ◌==◌,
  if◌then◌else◌, Bool, true, false, not, leb, ltb, lt→ltb, le→ltb, add32, ℤ, pos, minus_one, arith,
}
use simple_microkernel.Memory.{Bytes, memcmp, memcmp_from}
use simple_microkernel.String.{strnlen, is_digit, to_numeric_digit}
use simple_microkernel.String.Length.{ScanEnds, strnlen_lem}
use simple_microkernel.PathParser.{path_valid_format, get_drive_by_path, is_zero}

-- A path of the form `d:/…` with something behind the slash.
pub record IsDrivePath (m : Bytes) (path d : ℕ) : Type 0 where
  pub digit : d < 10
  pub first : m path ≡ 48 + d
  pub colon : m (path + 1) ≡ 58
  pub slash : m (path + 2) ≡ 47
  pub more : m (path + 3) ≢ 0

-- the literal ":/"
pub record IsColonSlash (m : Bytes) (literal : ℕ) : Type 0 where
  pub fits : literal + 2 ≤ 2 ^ 32
  pub colon : m literal ≡ 58
  pub slash : m (literal + 1) ≡ 47

module _ (m : Bytes) (literal path : ℕ) (l : IsColonSlash m literal)
    (fits : path + 108 < 2 ^ 32) where
  long_enough : (d k : ℕ) → IsDrivePath m path d → ScanEnds m path 108 k → 3 < k
  long_enough d zero p s = elim s.stops [
    | inl e ↦ absurd (omega arith)
    | inr (_, z) ↦
        absurd
          (let f = p.first in let e : m path ≡ 0 = ap m (sym (add-zero path)) ∙ z in omega arith)
  ]
  long_enough d (suc zero) p s = elim s.stops [
    | inl e ↦ absurd (omega arith)
    | inr (_, z) ↦ absurd (let c = p.colon in omega arith)
  ]
  long_enough d (suc (suc zero)) p s = elim s.stops [
    | inl e ↦ absurd (omega arith)
    | inr (_, z) ↦ absurd (let c = p.slash in omega arith)
  ]
  long_enough d (suc (suc (suc zero))) p s = elim s.stops [
    | inl e ↦ absurd (omega arith)
    | inr (_, z) ↦ absurd (p.more z)
  ]
  long_enough d (suc (suc (suc (suc k)))) p s = omega arith

  same_bytes : (d : ℕ) → IsDrivePath m path d → memcmp m (path + 1) literal 2 ≡ pos 0
  unfolding memcmp memcmp_from
  same_bytes d p =
      let f = l.fits in
      let n1 : add32 (path + 1) 1 ≡ path + 2 = omega arith in
      let n2 : add32 literal 1 ≡ literal + 1 = omega arith in
      rw (p.colon, l.colon, n1, n2, p.slash, l.slash) refl

digit_value : (d : ℕ) → d < 10 → (is_digit (48 + d) ≡ true) × (to_numeric_digit (48 + d) ≡ pos d)
digit_value d h =
    let in_char : ltb (48 + d) 128 ≡ true = lt→ltb (48 + d) 128 (omega arith) in
    let low : ltb (48 + d + 0) 48 ≡ false = le→ltb (48 + d + 0) 48 (omega arith) in
    let high : ltb 57 (48 + d + 0) ≡ false = le→ltb 57 (48 + d + 0) (omega arith) in
    let more : leb 48 (48 + d + 0) ≡ true = ground arith in
    let rest : 48 + d + 0 - 48 ≡ d = omega arith in
    (rw (in_char, low, high) refl, rw (in_char, more, rest) refl)

-- the format is valid if none of the three tests fails
accepted :
    (short digit separator : Bool)
    → short ≡ false
    → digit ≡ true
    → separator ≡ true
    → ◌≡◌ {A = ℕ}
        (if short then 0 else (if not digit then 0 else (if not separator then 0 else 1)))
        1
accepted short digit separator e f g = rw (e, f, g) refl

-- A path that begins with a digit, a colon, a slash and a further character has that digit as its
-- drive number, and the rest of the path begins behind the slash.
pub get_drive_by_path-IsDrivePath :
    (m : Bytes) (literal path d : ℕ)
    → IsColonSlash m literal
    → path + 108 < 2 ^ 32
    → IsDrivePath m path d
    → get_drive_by_path m literal path ≡ (pos d, path + 3)
unfolding get_drive_by_path path_valid_format
get_drive_by_path-IsDrivePath m literal path d l fits p =
    let (digit, value) = digit_value d p.digit in
    let long =
      long_enough m literal path l fits d (strnlen m path (pos 108)) p
        (strnlen_lem m path (pos 108) fits) in
    let n1 : add32 path 1 ≡ path + 1 = omega arith in
    let n3 : add32 path 3 ≡ path + 3 = omega arith in
    let not_short : leb (strnlen m path (pos 108)) 3 ≡ false = ground (arith, long) in
    let separator =
      ap (λ (x : ℕ). memcmp m x literal 2) n1 ∙ same_bytes m literal path l fits d p in
    let valid : path_valid_format m literal path ≡ 1 =
      accepted (leb (strnlen m path (pos 108)) 3) (is_digit (m path))
        (is_zero (memcmp m (add32 path 1) literal 2)) not_short (ap is_digit p.first ∙ digit)
        (ap is_zero separator) in
    ap (λ (v : ℕ). if v == 0 then (minus_one, path) else (to_numeric_digit (m path), add32 path 3))
      valid
    ∙ ap (λ (z : ℤ). (z, add32 path 3)) (ap to_numeric_digit p.first ∙ value)
    ∙ ap (λ (x : ℕ). (pos d, x)) n3
