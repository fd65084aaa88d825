-- ===== src/Fat16/Table.antt =====
-- The entries of the file allocation table.
use native.Mathlib.Nat.{add-zero}
use simple_microkernel.Base.{
  ℕ, ◌+◌, ◌*◌, ◌^◌, ◌≤◌, ◌<◌, ◌≡◌, inr, refl, ◌∙◌, ap, add32, mul32, ℤ, is_negative, arith,
}
use simple_microkernel.Memory.{Bytes}
use simple_microkernel.Disk.{Disk, DiskStream, disk_address, disk_streamer_seek, disk_streamer_read}
use simple_microkernel.Disk.Sector.{disk_byte}
use simple_microkernel.Disk.Stream.{StreamRead, disk_streamer_read-StreamRead}
use simple_microkernel.Fat16.{
  Fat16Header, Fat16Private, get_first_fat_sector, get_fat_entry, entry_result,
}

-- A FAT16 volume as the code needs it: its sectors have 512 bytes, a cluster is no larger than
-- 64 KB, its table lies in the first 4 GB, and all streams read the disk.
pub record IsVolume (disk : Disk) (p : Fat16Private) : Type 0 where
  pub sector : disk.sector_size ≡ 512
  pub same_sector : p.header.bytes_per_sector ≡ 512
  pub cluster : 0 < p.header.sectors_per_cluster
  pub small_cluster : p.header.sectors_per_cluster ≤ 128
  pub table : p.header.reserved_sectors + p.header.hidden_setors < 2 ^ 22
  pub files : p.root_directory.ending_sector_pos + 65536 * p.header.sectors_per_cluster < 2 ^ 23
  pub fat_stream : p.fat_read_stream.disk ≡ disk_address
  pub cluster_stream : p.cluster_read_stream.disk ≡ disk_address

module _ (drive : ℕ → ℕ → ℕ) where
  -- the table's entry of a cluster, on the disk
  abbrev pub table_entry : Fat16Header → ℕ → ℕ
  table_entry h cluster =
      let at = (h.reserved_sectors + h.hidden_setors) * 512 + cluster * 2 in
      disk_byte drive at + disk_byte drive (at + 1) * 2 ^ 8

  -- Reading an entry moves nothing but the stream of the table.
  pub record EntryRead (p : Fat16Private) (cluster : ℕ) (r : ℕ × DiskStream) : Type 0 where
    pub entry : r.0 ≡ table_entry p.header cluster
    pub same_disk : r.1.disk ≡ p.fat_read_stream.disk

  delivered :
      (s : DiskStream) (m : Bytes) (r : ℤ × DiskStream × Bytes)
      → StreamRead drive s m 0 2 r
      → (entry_result r).0 ≡ disk_byte drive s.pos + disk_byte drive (s.pos + 1) * 2 ^ 8
  delivered s m r read =
      let low : r.2 0 ≡ disk_byte drive s.pos =
        read.bytes 0 (omega arith) ∙ ap (disk_byte drive) (add-zero s.pos) in
      rw (ap is_negative read.blocks.1, low, read.bytes 1 (omega arith)) refl

  pub get_fat_entry-EntryRead :
      (stack : Bytes) (disk : Disk) (p : Fat16Private) (cluster : ℕ)
      → IsVolume disk p
      → cluster < 2 ^ 16
      → EntryRead p cluster (get_fat_entry drive stack p cluster)
  unfolding get_fat_entry get_first_fat_sector disk_streamer_seek
  get_fat_entry-EntryRead stack disk p cluster v h =
      let table = v.table in
      let at = (p.header.reserved_sectors + p.header.hidden_setors) * 512 + cluster * 2 in
      let place : add32
            (mul32 (add32 p.header.reserved_sectors p.header.hidden_setors)
              p.header.bytes_per_sector)
            (mul32 cluster 2)
          ≡ at =
        rw (v.same_sector) (omega arith) in
      let s : DiskStream = record p.fat_read_stream { pos = at } in
      let read =
        disk_streamer_read-StreamRead drive stack s stack 0 2 v.fat_stream (omega arith)
          (omega arith) (inr (omega arith)) in
      rw place (record {
        entry = delivered s stack (disk_streamer_read drive stack s stack 0 2) read;
        same_disk = read.same_disk;
      })
