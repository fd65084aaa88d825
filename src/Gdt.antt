-- ===== src/Gdt.antt =====
-- src/gdt/gdt.c: the encoding of segment descriptors. A descriptor is its eight bytes, and `none` is
-- the endless loop of panic.
pub mod Encode
mod Tests
use simple_microkernel.Base.{
  ℕ, zero, suc, ◌+◌, ◌*◌, ◌/◌, ◌%◌, ◌^◌, ◌==◌, if◌then◌else◌, Bool, ◌&&◌, not, ltb, update, bit_and,
  bit_or, Option, some, none,
}

-- struct gdt_structured
pub record GdtStructured : Type 0 where
  pub base : ℕ
  pub limit : ℕ
  pub type : ℕ

-- the bytes of a struct gdt
abbrev pub Descriptor : Type 0
Descriptor = ℕ → ℕ

-- encodeGdtEntry from the two assignments to the flags on, for a limit in bytes or in pages
unfoldable pub write_entry : Descriptor → GdtStructured → ℕ → ℕ → Descriptor
write_entry target source flags limit =
    let t = update target 6 flags in
    let t = update t 0 (bit_and limit 0xff) in
    let t = update t 1 (bit_and (limit / 2 ^ 8) 0xff) in
    let t = update t 6 (bit_or (t 6) (bit_and (limit / 2 ^ 16) 0xf)) in
    let t = update t 2 (bit_and source.base 0xff) in
    let t = update t 3 (bit_and (source.base / 2 ^ 8) 0xff) in
    let t = update t 4 (bit_and (source.base / 2 ^ 16) 0xff) in
    let t = update t 7 (bit_and (source.base / 2 ^ 24) 0xff) in update t 5 source.type

-- encodeGdtEntry
unfoldable pub encode_gdt_entry : Descriptor → GdtStructured → Option Descriptor
unfolding write_entry
encode_gdt_entry target source =
    if ltb 65536 source.limit && not (bit_and source.limit 0xfff == 0xfff)
    then none
    else (if ltb 65536 source.limit
        then some (write_entry target source 0xc0 (source.limit / 2 ^ 12))
        else some (write_entry target source 0x40 source.limit))

-- one round of the loop of gdt_structured_to_gdt
abbrev pub put_entry : (ℕ → Descriptor) → ℕ → Option Descriptor → Option (ℕ → Descriptor)
put_entry gdt i none = none
put_entry gdt i (some d) = some (update gdt i d)

-- gdt_structured_to_gdt, by its rounds from entry `i` on
unfoldable pub gdt_structured_to_gdt :
    Option (ℕ → Descriptor) → (ℕ → GdtStructured) → ℕ → ℕ → Option (ℕ → Descriptor)
unfolding encode_gdt_entry
gdt_structured_to_gdt none structured i n = none
gdt_structured_to_gdt (some gdt) structured i zero = some gdt
gdt_structured_to_gdt (some gdt) structured i (suc n) =
    gdt_structured_to_gdt (put_entry gdt i (encode_gdt_entry (gdt i) (structured i))) structured
      (suc i) n
