-- ===== src/FatVolume/Root.antt =====
-- What fat16_load_root_directory loads.
use simple_microkernel.Base.{
  ℕ, ◌+◌, ◌*◌, ◌/◌, ◌%◌, ◌^◌, ◌≤◌, ◌<◌, ◌≡◌, inl, refl, ◌∙◌, ap, false, eq→==, ne→==, some, add32,
  mul32, ℤ, pos, not_positive, arith,
}
use native.Mathlib.Decide.{ℕ_discrete}
use simple_microkernel.Memory.{Bytes}
use simple_microkernel.Memory.Fill.{Outside}
use simple_microkernel.Kheap.{Heap, kzalloc}
use simple_microkernel.Disk.{DiskStream, disk_address, disk_streamer_seek, disk_streamer_read}
use simple_microkernel.Disk.Sector.{disk_byte}
use simple_microkernel.Disk.Stream.{disk_streamer_read-StreamRead}
use simple_microkernel.Fat16.{Fat16Header}
use simple_microkernel.FatFile.{FatState}
use simple_microkernel.FatVolume.{
  root_sectors, root_directory_start_sector, finish_root, load_root_directory,
}
use simple_microkernel.FatVolume.Count.{IsDirectoryAt, used_items, get_total_items_lem}

-- The sectors of the root directory, as a volume is laid out.
abbrev pub size_in_sectors : Fat16Header → ℕ
size_in_sectors h = (h.root_dir_entries * 32 + 511) / 512

abbrev pub first_sector : Fat16Header → ℕ
first_sector h = h.hidden_setors + h.reserved_sectors + h.fat_copies * h.sectors_per_fat

-- A header with sectors of 512 bytes, whose root directory lies in the first 4 GB.
pub record IsHeader (h : Fat16Header) : Type 0 where
  pub sector : h.bytes_per_sector ≡ 512
  pub entries : h.root_dir_entries < 2 ^ 16
  pub fits : 512 * (first_sector h + size_in_sectors h) < 2 ^ 32

root_sectors_lem : (h : Fat16Header) → IsHeader h → root_sectors h ≡ size_in_sectors h
unfolding root_sectors
root_sectors_lem h v =
    let entries = v.entries in
    let size : mul32 h.root_dir_entries 32 ≡ h.root_dir_entries * 32 = omega arith in
    rw (v.sector, size)
      (elim (ℕ_discrete (h.root_dir_entries * 32 % 512) 0) [
        | yes even ↦ rw (eq→== (h.root_dir_entries * 32 % 512) 0 even) (omega arith)
        | no odd ↦ rw (ne→== (h.root_dir_entries * 32 % 512) 0 odd) (omega arith)
      ])

start_lem : (h : Fat16Header) → IsHeader h → root_directory_start_sector h ≡ first_sector h
unfolding root_directory_start_sector
start_lem h v = let fits = v.fits in omega arith

-- The root directory is in memory, and its place, its end and its number of items are known.
pub record RootLoaded (drive : ℕ → ℕ → ℕ) (s : FatState) (n : ℕ) (t : FatState) : Type 0 where
  pub start : t.volume.root_directory.start_sector_pos ≡ first_sector s.volume.header
  pub end :
      t.volume.root_directory.ending_sector_pos
      ≡ first_sector s.volume.header + size_in_sectors s.volume.header
  pub total :
      t.volume.root_directory.total_entries
      ≡ pos (used_items drive (512 * first_sector s.volume.header) n)
  pub item :
      t.volume.root_directory.item
      ≡ (kzalloc s.heap s.memory (512 * size_in_sectors s.volume.header)).0
  pub bytes :
      (j : ℕ)
      → j < 512 * size_in_sectors s.volume.header
      → t.memory (t.volume.root_directory.item + j)
        ≡ disk_byte drive (512 * first_sector s.volume.header + j)
  pub others :
      (a : ℕ)
      → Outside t.volume.root_directory.item (512 * size_in_sectors s.volume.header) a
      → t.memory a ≡ (kzalloc s.heap s.memory (512 * size_in_sectors s.volume.header)).2 a
  pub header : t.volume.header ≡ s.volume.header

finished :
    (drive : ℕ → ℕ → ℕ) (stack : Bytes) (fuel n : ℕ) (s : FatState)
    → s.disk.sector_size ≡ 512
    → IsHeader s.volume.header
    → s.volume.directory_stream.disk ≡ disk_address
    → n < fuel
    → n < 2 ^ 31
    → 512 * first_sector s.volume.header + 32 * (n + 1) < 2 ^ 32
    → IsDirectoryAt drive (512 * first_sector s.volume.header) n
    → (stream : DiskStream) × (finish_root drive stack fuel s
        ≡ some (
          pos 1,
          record s {
            volume = record s.volume {
              directory_stream = stream;
              root_directory = record s.volume.root_directory {
                start_sector_pos = first_sector s.volume.header;
                ending_sector_pos = first_sector s.volume.header + size_in_sectors s.volume.header;
                total_entries = pos (used_items drive (512 * first_sector s.volume.header) n);
              };
            };
          },
        ))
unfolding finish_root
finished drive stack fuel n s size v stream enough small g d =
    let fits = v.fits in
    let (t, e, same) =
      get_total_items_lem drive stack fuel s.disk s.volume (first_sector s.volume.header) n size
        stream enough g small d in
    let end : add32 (first_sector s.volume.header) (size_in_sectors s.volume.header)
        ≡ first_sector s.volume.header + size_in_sectors s.volume.header =
      omega arith in
    (t, rw (start_lem s.volume.header v, e, root_sectors_lem s.volume.header v, end) refl)

-- the directory's bytes, once they have been read from `r`
abbrev with_items : FatState → ℕ × Heap × Bytes → ℤ × DiskStream × Bytes → FatState
with_items s z r = record s {
  heap = z.1;
  memory = r.2;
  volume = record s.volume {
    root_directory = record s.volume.root_directory { item = z.0 };
    directory_stream = r.1;
  };
}

module _ (drive : ℕ → ℕ → ℕ) (stack : Bytes) (fuel : ℕ) (s : FatState)
    (v : IsHeader s.volume.header) where
  abbrev root_bytes : ℕ
  root_bytes = 512 * size_in_sectors s.volume.header

  abbrev root_memory : ℕ × Heap × Bytes
  root_memory = kzalloc s.heap s.memory root_bytes

  abbrev root_stream : DiskStream
  root_stream = record s.volume.directory_stream { pos = 512 * first_sector s.volume.header }

  abbrev root_read : ℤ × DiskStream × Bytes
  root_read = disk_streamer_read drive stack root_stream root_memory.2 root_memory.0 root_bytes

  load-finish :
      s.disk.sector_size ≡ 512
      → not_positive root_read.0 ≡ false
      → load_root_directory drive stack fuel s
        ≡ finish_root drive stack fuel (with_items s root_memory root_read)
  unfolding load_root_directory disk_streamer_seek
  load-finish size success =
      let fits = v.fits in
      let a : mul32 (size_in_sectors s.volume.header) 512 ≡ root_bytes = omega arith in
      let b : mul32 512 (first_sector s.volume.header) ≡ 512 * first_sector s.volume.header =
        omega arith in
      rw
        (
          root_sectors_lem s.volume.header v,
          start_lem s.volume.header v,
          v.sector,
          size,
          a,
          b,
          success,
        )
        refl

  -- With enough fuel, fat16_load_root_directory reads the sectors of the root directory, as the header
  -- places them, into new memory, and finds the directory's place, its end and the number of items
  -- that are not deleted. The directory must have an end mark behind `n` items.
  pub load_root_directory-RootLoaded :
      (n : ℕ)
      → s.disk.sector_size ≡ 512
      → s.volume.directory_stream.disk ≡ disk_address
      → root_memory.0 + root_bytes ≤ 2 ^ 32
      → n < fuel
      → n < 2 ^ 31
      → 512 * first_sector s.volume.header + 32 * (n + 1) < 2 ^ 32
      → IsDirectoryAt drive (512 * first_sector s.volume.header) n
      → (t : FatState) × (load_root_directory drive stack fuel s ≡ some (pos 1, t))
        × RootLoaded drive s n t
  load_root_directory-RootLoaded n size stream place enough small g d =
      let fits = v.fits in
      let read =
        disk_streamer_read-StreamRead drive stack root_stream root_memory.2 root_memory.0 root_bytes
          stream (omega arith) place (inl (omega arith)) in
      let u = with_items s root_memory root_read in
      let (t, e) =
        finished drive stack fuel n u size v (read.same_disk ∙ stream) enough small g d in
      (
        _,
        load-finish size (ap not_positive read.blocks.1) ∙ e,
        record {
          start = refl;
          end = refl;
          total = refl;
          item = refl;
          bytes = read.bytes;
          others = read.others;
          header = refl;
        },
      )
