-- ===== src/FatNames/Written.antt =====
-- The name that fat16_get_relative_path_name writes.
use native.Mathlib.Decide.{ℕ_discrete}
use simple_microkernel.Base.{
  ℕ, ◌+◌, ◌^◌, ◌≤◌, ◌<◌, ◌≡◌, ◌≢◌, ◌⊎◌, inl, inr, refl, ◌∙◌, ap, ne→==, some, update, update_self,
  update_ne, add32, arith,
}
use simple_microkernel.Memory.{Bytes, memset}
use simple_microkernel.Memory.Fill.{Outside, memset_lem}
use simple_microkernel.FatNames.{to_proper_string, put_extension, get_relative_path_name}
use simple_microkernel.FatNames.Copied.{IsBlank, HasName, Apart, Copied, to_proper_string-Copied}

-- The name of `k` bytes is written, with a dot and the extension of `l` bytes if there is one, and a zero
-- byte behind it; no other memory changes.
pub record NameWritten (m : Bytes) (item out k l : ℕ) (m' : Bytes) : Type 0 where
  pub name : (i : ℕ) → i < k → m' (out + i) ≡ m (item + i)
  pub extension :
      ((l ≡ 0) × (m' (out + k) ≡ 0))
      ⊎ ((l ≢ 0)
          × (m' (out + k) ≡ 0x2e)
          × ((i : ℕ) → i < l → m' (out + k + 1 + i) ≡ m (item + 8 + i))
          × (m' (out + k + 1 + l) ≡ 0))
  pub others : (a : ℕ) → Outside out 108 a → m' a ≡ m a

-- the end of the string behind what has been copied is 0
ended :
    (m : Bytes) (out src k : ℕ) (r : ℕ × Bytes)
    → m (out + k) ≡ 0
    → Copied m out src k r
    → r.1 (out + k) ≡ 0
ended m out src k r z c = elim c.stop [ inl e ↦ e | inr e ↦ e ∙ z ]

plain_extension :
    (fuel ext : ℕ) (r : ℕ × Bytes) → IsBlank (r.1 ext) → put_extension fuel ext r ≡ some r.1
unfolding put_extension
plain_extension fuel ext r (inl e) = rw e refl
plain_extension fuel ext r (inr e) = rw e refl

dotted_extension :
    (fuel ext : ℕ) (r r' : ℕ × Bytes)
    → ¬ IsBlank (r.1 ext)
    → to_proper_string fuel (update r.1 r.0 0x2e) (add32 r.0 1) ext ≡ some r'
    → put_extension fuel ext r ≡ some r'.1
unfolding put_extension
dotted_extension fuel ext r r' letter e =
    rw (ne→== (r.1 ext) 0 (λ z. letter (inl z)), ne→== (r.1 ext) 0x20 (λ z. letter (inr z)), e) refl

module _ (m : Bytes) (item out k l : ℕ) (fits : out + 108 ≤ 2 ^ 32) (inside : item + 12 ≤ 2 ^ 32)
    (apart : Apart item 12 out 108) (short : k < 8) (short' : l < 4) (named : HasName m item k)
    (extended : HasName m (item + 8) l) where
  abbrev clear : Bytes
  clear = memset m out 0 108

  cleared : (a : ℕ) → out ≤ a → a < out + 108 → clear a ≡ 0
  cleared a = (memset_lem m out 0 108 fits).0 a

  kept : (a : ℕ) → Outside out 108 a → clear a ≡ m a
  kept a = (memset_lem m out 0 108 fits).1 a

  HasName-clear : HasName clear item k
  HasName-clear = record {
    letters = λ i h. rw (kept (item + i) (omega arith)) (named.letters i h);
    blank = rw (kept (item + k) (omega arith)) named.blank;
  }

  -- the memory once the name is written
  module _ (r : ℕ × Bytes) (c : Copied clear out item k r) where
    abbrev dotted : Bytes
    dotted = update r.1 (out + k) 0x2e

    source : (i : ℕ) → i ≤ l → r.1 (item + 8 + i) ≡ m (item + 8 + i)
    source i h = c.others (item + 8 + i) (omega arith) ∙ kept (item + 8 + i) (omega arith)

    first_of_extension : r.1 (item + 8) ≡ m (item + 8)
    first_of_extension = c.others (item + 8) (omega arith) ∙ kept (item + 8) (omega arith)

    name_bytes : (i : ℕ) → i < k → r.1 (out + i) ≡ m (item + i)
    name_bytes i h = c.bytes i h ∙ kept (item + i) (omega arith)

    HasName-dotted : HasName dotted (item + 8) l
    HasName-dotted = record {
      letters = λ i h.
          rw (update_ne r.1 (out + k) 0x2e (item + 8 + i) (omega arith), source i (omega arith))
            (extended.letters i h);
      blank =
          rw (update_ne r.1 (out + k) 0x2e (item + 8 + l) (omega arith), source l (omega arith))
            extended.blank;
    }

    without : l ≡ 0 → NameWritten m item out k l r.1
    without z = record {
      name = name_bytes;
      extension =
          inl (z, ended clear out item k r (cleared (out + k) (omega arith) (omega arith)) c);
      others = λ a o. c.others a (omega arith) ∙ kept a o;
    }

    with_extension :
        (r' : ℕ × Bytes)
        → l ≢ 0
        → Copied dotted (out + k + 1) (item + 8) l r'
        → NameWritten m item out k l r'.1
    with_extension r' nz c' = record {
      name = λ i h.
          c'.others (out + i) (omega arith)
          ∙ update_ne r.1 (out + k) 0x2e (out + i) (omega arith)
          ∙ name_bytes i h;
      extension = inr (
        nz,
        c'.others (out + k) (omega arith) ∙ update_self r.1 (out + k) 0x2e,
        λ i h.
            c'.bytes i h
            ∙ update_ne r.1 (out + k) 0x2e (item + 8 + i) (omega arith)
            ∙ source i (omega arith),
        ended dotted (out + k + 1) (item + 8) l r'
            (update_ne r.1 (out + k) 0x2e (out + k + 1 + l) (omega arith)
              ∙ c.others (out + k + 1 + l) (omega arith)
              ∙ cleared (out + k + 1 + l) (omega arith) (omega arith))
            c',
      );
      others = λ a o.
          c'.others a (omega arith)
          ∙ update_ne r.1 (out + k) 0x2e a (omega arith)
          ∙ c.others a (omega arith)
          ∙ kept a o;
    }

    extended-NameWritten :
        (fuel : ℕ)
        → l ≢ 0
        → ¬ IsBlank (r.1 (item + 8))
        → (r' : ℕ × Bytes) × (to_proper_string fuel dotted (out + k + 1) (item + 8) ≡ some r')
          × Copied dotted (out + k + 1) (item + 8) l r'
        → (m' : Bytes) × (put_extension fuel (add32 item 8) r ≡ some m')
          × NameWritten m item out k l m'
    extended-NameWritten fuel nz letter (r', e, c') =
        let place : add32 item 8 ≡ item + 8 = omega arith in
        let next : add32 (out + k) 1 ≡ out + k + 1 = omega arith in
        (
          r'.1,
          rw place (dotted_extension fuel (item + 8) r r' letter (rw (c.end, next) e)),
          with_extension r' nz c',
        )

    put_extension-NameWritten :
        (fuel : ℕ)
        → l < fuel
        → (m' : Bytes) × (put_extension fuel (add32 item 8) r ≡ some m')
          × NameWritten m item out k l m'
    unfolding put_extension
    put_extension-NameWritten fuel enough =
        let place : add32 item 8 ≡ item + 8 = omega arith in
        elim (ℕ_discrete l 0) [
          | yes z ↦
              let blank : IsBlank (m (item + 8)) =
                rw (let e : item + 8 ≡ item + 8 + l = omega arith in ap m e) extended.blank in
              (
                r.1,
                rw place (plain_extension fuel (item + 8) r (rw first_of_extension blank)),
                without z,
              )
          | no nz ↦
              let letter : ¬ IsBlank (m (item + 8)) =
                rw (let e : item + 8 ≡ item + 8 + 0 = omega arith in ap m e)
                  (extended.letters 0 (omega arith)) in
              let there : ¬ IsBlank (r.1 (item + 8)) = rw first_of_extension letter in
              extended-NameWritten fuel nz there (
                to_proper_string-Copied fuel l dotted (out + k + 1) (item + 8) enough HasName-dotted
                  (omega arith) (omega arith) (omega arith))
        ]

  -- With enough fuel, fat16_get_relative_path_name writes the item's name, a dot and the extension, and
  -- a zero byte, into the 108 bytes at `out`, and changes no other memory. The name must end in its
  -- own eight bytes, and the extension at the attribute at the latest.
  pub get_relative_path_name-NameWritten :
      (fuel : ℕ)
      → k < fuel
      → l < fuel
      → (m' : Bytes) × (get_relative_path_name fuel m item out 108 ≡ some m')
        × NameWritten m item out k l m'
  unfolding get_relative_path_name
  get_relative_path_name-NameWritten fuel enough enough' =
      let (r, e, c) =
        to_proper_string-Copied fuel k clear out item enough HasName-clear (omega arith)
          (omega arith) (omega arith) in
      let (m', e', w) = put_extension-NameWritten r c fuel enough' in (m', rw e e', w)
