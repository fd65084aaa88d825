-- ===== src/Gdt/Encode.antt =====
-- A descriptor says what its structured form says.
use native.Mathlib.Decide.{ℕ_discrete}
use simple_microkernel.Base.{
  ℕ, zero, suc, ◌+◌, ◌*◌, ◌/◌, ◌%◌, ◌^◌, ◌≤◌, ◌<◌, ◌≡◌, ◌≢◌, ◌⊎◌, inl, inr, refl, sym, ◌∙◌, ap,
  ◌==◌, if◌then◌else◌, ltb, Bool-cases, update, update_self, update_ne, bit_and, bit_or,
  bit_and_255, bit_and_15, bit_and_4095, bit_or_low_nibble, some, none, arith, eq→==, ne→==,
}
use simple_microkernel.Gdt.{
  GdtStructured, Descriptor, write_entry, encode_gdt_entry, put_entry, gdt_structured_to_gdt,
}

-- the fields that the processor reads from a descriptor
abbrev pub base_field : Descriptor → ℕ
base_field d = d 2 + d 3 * 2 ^ 8 + d 4 * 2 ^ 16 + d 7 * 2 ^ 24

abbrev pub limit_field : Descriptor → ℕ
limit_field d = d 0 + d 1 * 2 ^ 8 + d 6 % 16 * 2 ^ 16

-- the last offset of the segment, with the granularity bit
abbrev pub last_offset : Descriptor → ℕ
last_offset d = if d 6 / 2 ^ 7 == 1 then limit_field d * 4096 + 4095 else limit_field d

pub record Encodes (s : GdtStructured) (d : Descriptor) : Type 0 where
  pub base : base_field d ≡ s.base
  pub limit : last_offset d ≡ s.limit
  pub access : d 5 ≡ s.type

-- the limits that the code accepts
abbrev pub Encodable : GdtStructured → Type 0
Encodable s = (s.limit ≤ 65536) ⊎ (s.limit % 4096 ≡ 4095)

module _ (target : Descriptor) (s : GdtStructured) (base : s.base < 2 ^ 32) where
  write_entry-Encodes :
      (high limit : ℕ)
      → limit < 2 ^ 20
      → (if high * 16 / 2 ^ 7 == 1 then limit * 4096 + 4095 else limit) ≡ s.limit
      → Encodes s (write_entry target s (high * 16) limit)
  unfolding write_entry update
  write_entry-Encodes high limit l e =
      let x = limit / 2 ^ 16 in
      let nibble : bit_or (high * 16) (bit_and x 0xf) ≡ high * 16 + x % 16 =
        rw (bit_and_15 x) (bit_or_low_nibble high (x % 16) (omega arith)) in
      let flag : (high * 16 + x % 16) / 2 ^ 7 ≡ high * 16 / 2 ^ 7 = omega arith in
      let value : bit_and limit 0xff
            + bit_and (limit / 2 ^ 8) 0xff * 2 ^ 8
            + (high * 16 + x % 16) % 16 * 2 ^ 16
          ≡ limit =
        rw (bit_and_255 limit, bit_and_255 (limit / 2 ^ 8)) (omega arith) in
      record {
        base =
            rw
              (
                bit_and_255 s.base,
                bit_and_255 (s.base / 2 ^ 8),
                bit_and_255 (s.base / 2 ^ 16),
                bit_and_255 (s.base / 2 ^ 24),
              )
              (omega arith);
        limit = rw (nibble, flag, value) e;
        access = refl;
      }

small_flag : (limit : ℕ) → (if 4 * 16 / 2 ^ 7 == 1 then limit * 4096 + 4095 else limit) ≡ limit
small_flag limit = refl

large_flag :
    (limit : ℕ)
    → limit % 4096 ≡ 4095
    → (if 12 * 16 / 2 ^ 7 == 1 then limit / 2 ^ 12 * 4096 + 4095 else limit / 2 ^ 12) ≡ limit
large_flag limit e = omega arith

-- encodeGdtEntry writes a descriptor with the base, the last offset and the access byte of the
-- structured entry, if the limit is at most 65536 or ends in twelve ones. It panics for every other
-- limit.
pub encode_gdt_entry-Encodes :
    (target : Descriptor) (s : GdtStructured)
    → s.base < 2 ^ 32
    → s.limit < 2 ^ 32
    → (Encodable s × ((d : Descriptor) × (encode_gdt_entry target s ≡ some d) × Encodes s d))
      ⊎ ((65536 < s.limit) × (s.limit % 4096 ≢ 4095) × (encode_gdt_entry target s ≡ none))
unfolding encode_gdt_entry
encode_gdt_entry-Encodes target s b l = elim (Bool-cases (ltb 65536 s.limit)) [
  | inl large ↦ elim (ℕ_discrete (s.limit % 4096) 4095) [
    | yes ones ↦ inl (
      inr ones,
      (
        write_entry target s 0xc0 (s.limit / 2 ^ 12),
        rw (large, bit_and_4095 s.limit, eq→== (s.limit % 4096) 4095 ones) refl,
        write_entry-Encodes target s b 12 (s.limit / 2 ^ 12) (omega arith)
            (large_flag s.limit ones),
      ),
    )
    | no other ↦ inr (
      ground (arith, large),
      other,
      rw (large, bit_and_4095 s.limit, ne→== (s.limit % 4096) 4095 other) refl,
    )
  ]
  | inr small ↦
      let le : s.limit ≤ 65536 = ground (arith, small) in
      inl (
        inl le,
        (
          write_entry target s 0x40 s.limit,
          rw small refl,
          write_entry-Encodes target s b 4 s.limit (omega arith) (small_flag s.limit),
        ),
      )
]

-- the entries from `i` up to `end` are encoded, and the others are those of `gdt`
pub record TableEncoded (gdt : ℕ → Descriptor) (structured : ℕ → GdtStructured) (i end : ℕ)
    (gdt' : ℕ → Descriptor) : Type 0 where
  pub encoded : (j : ℕ) → i ≤ j → j < end → Encodes (structured j) (gdt' j)
  pub others : (j : ℕ) → (j < i) ⊎ (end ≤ j) → gdt' j ≡ gdt j

encode_gdt_entry-some :
    (target : Descriptor) (s : GdtStructured)
    → s.base < 2 ^ 32
    → s.limit < 2 ^ 32
    → Encodable s
    → (d : Descriptor) × (encode_gdt_entry target s ≡ some d) × Encodes s d
encode_gdt_entry-some target s b l e = elim (encode_gdt_entry-Encodes target s b l) [
  | inl (_, r) ↦ r
  | inr (large, other, _) ↦ absurd (elim e [ inl small ↦ omega arith | inr ones ↦ other ones ])
]

-- gdt_structured_to_gdt encodes every entry of the table and changes no descriptor behind it, if each
-- limit can be encoded.
pub gdt_structured_to_gdt-TableEncoded :
    (structured : ℕ → GdtStructured) (gdt : ℕ → Descriptor) (i n end : ℕ)
    → i + n ≡ end
    → ((j : ℕ) → j < end → (structured j).base < 2 ^ 32)
    → ((j : ℕ) → j < end → (structured j).limit < 2 ^ 32)
    → ((j : ℕ) → j < end → Encodable (structured j))
    → (gdt' : ℕ → Descriptor) × (gdt_structured_to_gdt (some gdt) structured i n ≡ some gdt')
      × TableEncoded gdt structured i end gdt'
unfolding gdt_structured_to_gdt
gdt_structured_to_gdt-TableEncoded structured gdt i zero end e b l ok =
    (gdt, refl, record { encoded = λ j x y. absurd (omega arith); others = λ j o. refl })
gdt_structured_to_gdt-TableEncoded structured gdt i (suc n) end e b l ok =
    let h : i < end = omega arith in
    let (d, run, enc) = encode_gdt_entry-some (gdt i) (structured i) (b i h) (l i h) (ok i h) in
    let (gdt', run', t) =
      gdt_structured_to_gdt-TableEncoded structured (update gdt i d) (suc i) n end (omega arith) b l
        ok in
    (
      gdt',
      ap (λ o. gdt_structured_to_gdt (put_entry gdt i o) structured (suc i) n) run ∙ run',
      record {
        encoded = λ j x y. elim (ℕ_discrete i j) [
          | yes same ↦
              let here : gdt' j ≡ d =
                t.others j (omega arith) ∙ ap (update gdt i d) (sym same) ∙ update_self gdt i d in
              rw (here, ← same) enc
          | no other ↦ t.encoded j (omega arith) y
        ];
        others = λ j o. t.others j (omega arith) ∙ update_ne gdt i d j (omega arith);
      },
    )
