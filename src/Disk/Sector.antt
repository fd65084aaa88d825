-- ===== src/Disk/Sector.antt =====
-- The bytes that a read of one sector puts into a buffer.
use native.Mathlib.Decide.{ℕ_discrete}
use simple_microkernel.Base.{
  ℕ, zero, suc, ◌+◌, ◌*◌, ◌/◌, ◌%◌, ◌^◌, ◌≤◌, ◌<◌, ◌≡◌, ◌⊎◌, inl, inr, refl, sym, ◌∙◌, ap, ◌==◌,
  if◌then◌else◌, ltb, Bool-cases, eq→==, ne→==, update, update_self, update_ne, array_loop, add32,
  pos, arith,
}
use simple_microkernel.Memory.{Bytes}
use simple_microkernel.Disk.{
  disk_address, lba_registers, selected, put_word, disk_read_sectors, disk_read_block,
}

selected-lba_registers : (lba : ℕ) → lba < 2 ^ 24 → selected (lba_registers lba) ≡ lba
selected-lba_registers lba h = omega arith

module _ (drive : ℕ → ℕ → ℕ) where
  -- byte `i` of a sector
  abbrev pub sector_byte : ℕ → ℕ → ℕ
  sector_byte sector i =
      if i % 2 == 0 then drive sector (i / 2) % 256 else drive sector (i / 2) / 256

  -- the disk's bytes, one sector behind the other
  abbrev pub disk_byte : ℕ → ℕ
  disk_byte p = sector_byte (p / 512) (p % 512)

  module _ (sector : ℕ) where
    abbrev put_at : ℕ → Bytes → Bytes
    put_at i m = put_word m (add32 0 (2 * i)) (drive sector i)

    copied_out :
        (m : Bytes) (i n j : ℕ)
        → i + n ≤ 256
        → (j < 2 * i) ⊎ (2 * (i + n) ≤ j)
        → array_loop put_at i n m j ≡ m j
    unfolding array_loop
    copied_out m i zero j h o = refl
    copied_out m i (suc n) j h o =
        let a : add32 0 (2 * i) ≡ 2 * i = omega arith in
        let b : add32 (2 * i) 1 ≡ 2 * i + 1 = omega arith in
        copied_out (put_at i m) (suc i) n j (omega arith) (omega arith)
        ∙ rw (a, b)
            (update_ne (update m (2 * i) (drive sector i % 256)) (2 * i + 1) (drive sector i / 256)
                j (omega arith)
              ∙ update_ne m (2 * i) (drive sector i % 256) j (omega arith))

    put_low : (m : Bytes) (i : ℕ) → i < 256 → put_at i m (2 * i) ≡ drive sector i % 256
    put_low m i h =
        let a : add32 0 (2 * i) ≡ 2 * i = omega arith in
        let b : add32 (2 * i) 1 ≡ 2 * i + 1 = omega arith in
        rw (a, b)
          (update_ne (update m (2 * i) (drive sector i % 256)) (2 * i + 1) (drive sector i / 256)
              (2 * i) (omega arith)
            ∙ update_self m (2 * i) (drive sector i % 256))

    put_high : (m : Bytes) (i : ℕ) → i < 256 → put_at i m (2 * i + 1) ≡ drive sector i / 256
    put_high m i h =
        let a : add32 0 (2 * i) ≡ 2 * i = omega arith in
        let b : add32 (2 * i) 1 ≡ 2 * i + 1 = omega arith in
        rw (a, b)
          (update_self (update m (2 * i) (drive sector i % 256)) (2 * i + 1) (drive sector i / 256))

    copied_in :
        (m : Bytes) (i n j : ℕ)
        → i + n ≤ 256
        → 2 * i ≤ j
        → j < 2 * (i + n)
        → array_loop put_at i n m j ≡ sector_byte sector j
    unfolding array_loop
    copied_in m i zero j h l u = absurd (omega arith)
    copied_in m i (suc n) j h l u = elim (ℕ_discrete (j / 2) i) [
      | yes here ↦ elim (ℕ_discrete (j % 2) 0) [
        | yes even ↦
            let byte : sector_byte sector j ≡ drive sector i % 256 =
              rw (eq→== (j % 2) 0 even, here) refl in
            copied_out (put_at i m) (suc i) n j (omega arith) (omega arith)
            ∙ ap (put_at i m) (omega arith)
            ∙ put_low m i (omega arith)
            ∙ sym byte
        | no odd ↦
            let byte : sector_byte sector j ≡ drive sector i / 256 =
              rw (ne→== (j % 2) 0 odd, here) refl in
            copied_out (put_at i m) (suc i) n j (omega arith) (omega arith)
            ∙ ap (put_at i m) (omega arith)
            ∙ put_high m i (omega arith)
            ∙ sym byte
      ]
      | no other ↦ copied_in (put_at i m) (suc i) n j (omega arith) (omega arith) (omega arith)
    ]

    -- A copy to the start of a buffer leaves everything behind its 512 bytes alone.
    copied :
        (m : Bytes) (i : ℕ)
        → array_loop put_at 0 256 m i ≡ (if ltb i 512 then sector_byte sector i else m i)
    copied m i = elim (Bool-cases (ltb i 512)) [
      | inl inside ↦
          rw inside (copied_in m 0 256 i (omega arith) (omega arith) (ground (arith, inside)))
      | inr outside ↦
          rw outside (copied_out m 0 256 i (omega arith) (inr (ground (arith, outside))))
    ]

-- A read of one sector into the start of a buffer leaves everything behind its 512 bytes alone.
pub disk_read_block-sector :
    (drive : ℕ → ℕ → ℕ) (m : Bytes) (lba i : ℕ)
    → lba < 2 ^ 24
    → ((disk_read_block drive m disk_address lba 1 0).0 ≡ pos 1)
      × ((disk_read_block drive m disk_address lba 1 0).1 i
          ≡ (if ltb i 512 then sector_byte drive lba i else m i))
unfolding disk_read_block disk_read_sectors array_loop
disk_read_block-sector drive m lba i h =
    let same : selected (lba_registers lba) + 0 ≡ lba = omega arith in
    (refl, rw same (copied drive lba m i))
