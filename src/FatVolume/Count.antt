-- ===== src/FatVolume/Count.antt =====
-- How many items of a directory are counted.
use native.Mathlib.Decide.{ℕ_discrete}
use native.Mathlib.Nat.{add-zero}
use simple_microkernel.Base.{
  ℕ, zero, suc, ◌+◌, ◌*◌, ◌%◌, ◌^◌, ◌<◌, ◌≡◌, ◌≢◌, inr, refl, sym, ◌∙◌, ap, ◌==◌, if◌then◌else◌,
  false, lt→ltb, eq→==, ne→==, Option, some, ◌>>=◌, mul32, ℤ, pos, int_value, not_positive, arith,
}
use simple_microkernel.Memory.{Bytes, memset}
use simple_microkernel.Disk.{Disk, DiskStream, disk_address, disk_streamer_seek, disk_streamer_read}
use simple_microkernel.Disk.Sector.{disk_byte}
use simple_microkernel.Disk.Stream.{disk_streamer_read-StreamRead}
use simple_microkernel.Fat16.{Fat16Private}
use simple_microkernel.FatVolume.{count_items, get_total_items}

module _ (drive : ℕ → ℕ → ℕ) where
  -- A directory of `n` items lies at `base` of the disk: their names do not begin with a zero byte, and
  -- the one behind them does.
  abbrev pub IsDirectoryAt : ℕ → ℕ → Type 0
  IsDirectoryAt base zero = disk_byte drive base ≡ 0
  IsDirectoryAt base (suc n) = (disk_byte drive base ≢ 0) × IsDirectoryAt (base + 32) n

  -- how many of the `n` items are not deleted
  abbrev pub used_items : ℕ → ℕ → ℕ
  used_items base zero = 0
  used_items base (suc n) =
      (if disk_byte drive base == 0xe5 then 0 else 1) + used_items (base + 32) n

  module _ (stack : Bytes) where
    -- one item has been read
    record ItemRead (s : DiskStream) (r : ℤ × DiskStream × Bytes) : Type 0 where
      success : not_positive r.0 ≡ false
      first : r.2 0 ≡ disk_byte drive s.pos
      position : r.1.pos ≡ s.pos + 32
      same_disk : r.1.disk ≡ disk_address

    item-ItemRead :
        (s : DiskStream) (item : Bytes)
        → s.disk ≡ disk_address
        → s.pos % 32 ≡ 0
        → s.pos + 32 < 2 ^ 32
        → ItemRead s (disk_streamer_read drive stack s item 0 32)
    item-ItemRead s item disk aligned g =
        let read =
          disk_streamer_read-StreamRead drive stack s item 0 32 disk (omega arith) (omega arith)
            (inr (omega arith)) in
        record {
          success = ap not_positive read.blocks.1;
          first = read.bytes 0 (omega arith) ∙ ap (disk_byte drive) (add-zero s.pos);
          position = read.position;
          same_disk = read.same_disk ∙ disk;
        }

    counted :
        (fuel n : ℕ) (s : DiskStream) (item : Bytes) (i : ℕ)
        → n < fuel
        → s.disk ≡ disk_address
        → s.pos % 32 ≡ 0
        → s.pos + 32 * (n + 1) < 2 ^ 32
        → IsDirectoryAt s.pos n
        → i + n < 2 ^ 31
        → (t : DiskStream) × (count_items drive stack fuel s item i
            ≡ some (pos (i + used_items s.pos n), t))
          × (t.disk ≡ disk_address)
    unfolding count_items
    counted zero n s item i enough disk aligned g d small = absurd (omega arith)
    counted (suc fuel) zero s item i enough disk aligned g d small =
        let r = disk_streamer_read drive stack s item 0 32 in
        let read = item-ItemRead s item disk aligned (omega arith) in
        let value : int_value i ≡ pos (i + 0) =
          rw (lt→ltb i (2 ^ 31) (omega arith)) (ap pos (sym (add-zero i))) in
        (r.1, rw (read.success, read.first, d) (ap (λ x. some (x, r.1)) value), read.same_disk)
    counted (suc fuel) (suc n) s item i enough disk aligned g d small =
        let r = disk_streamer_read drive stack s item 0 32 in
        let read = item-ItemRead s item disk aligned (omega arith) in
        let place = read.position in
        let rest = λ (j : ℕ) (h : j + n < 2 ^ 31).
          counted fuel n r.1 r.2 j (omega arith) read.same_disk (omega arith) (omega arith)
            (rw place d.1) h in
        elim (ℕ_discrete (disk_byte drive s.pos) 0xe5) [
          | yes unused ↦
              let (t, e, same) = rest i (omega arith) in
              let sum : i + used_items (s.pos + 32) n ≡ i + (0 + used_items (s.pos + 32) n) =
                omega arith in
              (
                t,
                rw
                    (
                      read.success,
                      read.first,
                      ne→== (disk_byte drive s.pos) 0 d.0,
                      eq→== (disk_byte drive s.pos) 0xe5 unused,
                    )
                    (e
                      ∙ ap (λ (x : ℕ). some (pos (i + used_items x n), t)) place
                      ∙ ap (λ (x : ℕ). some (pos x, t)) sum),
                same,
              )
          | no used ↦
              let (t, e, same) = rest (suc i) (omega arith) in
              let sum : suc i + used_items (s.pos + 32) n ≡ i + (1 + used_items (s.pos + 32) n) =
                omega arith in
              (
                t,
                rw
                    (
                      read.success,
                      read.first,
                      ne→== (disk_byte drive s.pos) 0 d.0,
                      ne→== (disk_byte drive s.pos) 0xe5 used,
                    )
                    (e
                      ∙ ap (λ (x : ℕ). some (pos (suc i + used_items x n), t)) place
                      ∙ ap (λ (x : ℕ). some (pos x, t)) sum),
                same,
              )
        ]

finish_count :
    (total : ℕ) (p : Fat16Private) (r : Option (ℤ × DiskStream))
    → (t : DiskStream) × (r ≡ some (pos total, t)) × (t.disk ≡ disk_address)
    → (t : DiskStream) × (◌>>=◌ {B = ℤ × Fat16Private} r
          (λ x. some (x.0, record p { directory_stream = x.1 }))
        ≡ some (pos total, record p { directory_stream = t }))
      × (t.disk ≡ disk_address)
finish_count total p r (t, e, same) = (t, rw e refl, same)

-- With enough fuel, the items of a directory that begins with a sector are counted up to the end mark,
-- without those that are deleted; only the stream of the directory moves.
pub get_total_items_lem :
    (drive : ℕ → ℕ → ℕ) (stack : Bytes) (fuel : ℕ) (disk : Disk) (p : Fat16Private) (sector n : ℕ)
    → disk.sector_size ≡ 512
    → p.directory_stream.disk ≡ disk_address
    → n < fuel
    → 512 * sector + 32 * (n + 1) < 2 ^ 32
    → n < 2 ^ 31
    → IsDirectoryAt drive (512 * sector) n
    → (t : DiskStream) × (get_total_items drive stack fuel disk p sector
        ≡ some (pos (used_items drive (512 * sector) n), record p { directory_stream = t }))
      × (t.disk ≡ disk_address)
unfolding get_total_items disk_streamer_seek
get_total_items_lem drive stack fuel disk p sector n size stream enough g small d =
    let place : mul32 512 sector ≡ 512 * sector = omega arith in
    let s : DiskStream = record p.directory_stream { pos = 512 * sector } in
    let total : 0 + used_items drive (512 * sector) n ≡ used_items drive (512 * sector) n =
      omega arith in
    rw (size, place)
      (finish_count _ p (count_items drive stack fuel s (memset stack 0 0 32) 0) (
        rw total at (
          counted drive stack fuel n s (memset stack 0 0 32) 0 enough stream (omega arith) g d
            (omega arith))))
