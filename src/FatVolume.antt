-- ===== src/FatVolume.antt =====
-- src/fs/fat16/fat16.c: the volume of a disk and its root directory, as fat16_resolve loads them. A
-- directory is read item by item to its end mark, so the loop has fuel, and `none` where it runs
-- out. The local variable of an item has its own memory.
pub mod Count
pub mod Root
mod Tests
use simple_microkernel.Base.{
  ℕ, zero, suc, ◌+◌, ◌-◌, ◌*◌, ◌/◌, ◌%◌, ◌^◌, ◌==◌, if◌then◌else◌, not, Option, some, none, ◌>>=◌,
  add32, mul32, ℤ, pos, minus_one, int_value, not_positive, ◌-ℤ◌, ◌||◌,
}
use simple_microkernel.Memory.{Bytes, memset}
use simple_microkernel.Kheap.{Heap, kzalloc}
use simple_microkernel.PathParser.{is_zero}
use simple_microkernel.Disk.{
  Disk, DiskStream, disk_streamer_seek, disk_streamer_close, disk_streamer_read,
  create_disk_streamer,
}
use simple_microkernel.Fat16.{
  Fat16Header, Fat16Directory, Fat16Private, header_of, sizeof_header, sizeof_item,
  sectors_to_absolute,
}
use simple_microkernel.FatFile.{FatState}

-- sizeof(struct fat16_private)
abbrev pub sizeof_private : ℕ
sizeof_private = 92

-- the fields of a struct fat16_private that is cleared
abbrev pub zero_directory : Fat16Directory
zero_directory = record {
  item = 0;
  total_entries = pos 0;
  start_sector_pos = 0;
  ending_sector_pos = 0;
}

abbrev zero_header : Fat16Header
zero_header = header_of (λ a. 0) 0

-- fat16_init_private, without the memory that it clears once more
unfoldable pub fat16_init_private : Heap → ℤ → Heap × Fat16Private
fat16_init_private h disk_id =
    let (cluster, h1, cluster_stream) = create_disk_streamer h disk_id in
    let (table, h2, table_stream) = create_disk_streamer h1 disk_id in
    let (directory, h3, directory_stream) = create_disk_streamer h2 disk_id in
    (
      h3,
      record {
        header = zero_header;
        root_directory = zero_directory;
        cluster_read_stream = cluster_stream;
        fat_read_stream = table_stream;
        directory_stream = directory_stream;
      },
    )

-- the sectors that the root directory takes up
unfoldable pub root_sectors : Fat16Header → ℕ
root_sectors h =
    let root_dir_size = mul32 h.root_dir_entries sizeof_item in
    let sectors = root_dir_size / h.bytes_per_sector in
    if root_dir_size % h.bytes_per_sector == 0 then sectors else add32 sectors 1

-- the first of them
unfoldable pub root_directory_start_sector : Fat16Header → ℕ
root_directory_start_sector h =
    add32 (add32 h.hidden_setors h.reserved_sectors) (mul32 h.fat_copies h.sectors_per_fat)

module _ (drive : ℕ → ℕ → ℕ) (stack : Bytes) where
  -- the loop of fat16_get_total_items_for_directory
  unfoldable pub count_items : ℕ → DiskStream → Bytes → ℕ → Option (ℤ × DiskStream)
  count_items zero stream item i = none
  count_items (suc fuel) stream item i =
      let (res, stream', item') = disk_streamer_read drive stack stream item 0 sizeof_item in
      let unused = count_items fuel stream' item' i in
      let used = count_items fuel stream' item' (suc i) in
      if not_positive res
      then some (minus_one, stream')
      else (if item' 0 == 0x00
          then some (int_value i, stream')
          else (if item' 0 == 0xe5 then unused else used))

  -- fat16_get_total_items_for_directory
  unfoldable pub get_total_items : ℕ → Disk → Fat16Private → ℕ → Option (ℤ × Fat16Private)
  unfolding count_items
  get_total_items fuel disk p start_sector = do
    let stream = disk_streamer_seek p.directory_stream (sectors_to_absolute disk start_sector)
    (total, stream') ← count_items fuel stream (memset stack 0 0 sizeof_item) 0
    some (total, record p { directory_stream = stream' })

  -- the end of fat16_load_root_directory, once the items have been read
  unfoldable pub finish_root : ℕ → FatState → Option (ℤ × FatState)
  unfolding get_total_items
  finish_root fuel s = do
    let start = root_directory_start_sector s.volume.header
    (total, p) ← get_total_items fuel s.disk s.volume start
    some (
      pos 1,
      record s {
        volume = record p {
          root_directory = record p.root_directory {
            start_sector_pos = start;
            ending_sector_pos = add32 start (root_sectors p.header);
            total_entries = total;
          };
        };
      },
    )

  -- fat16_load_root_directory, for the root directory of the disk's own private struct; `none` also
  -- for the division by zero
  unfoldable pub load_root_directory : ℕ → FatState → Option (ℤ × FatState)
  unfolding finish_root
  load_root_directory fuel s =
      let p = s.volume in
      let sectors = root_sectors p.header in
      let (item, heap, cleared) =
        kzalloc s.heap s.memory (mul32 sectors p.header.bytes_per_sector) in
      let stream =
        disk_streamer_seek p.directory_stream
          (sectors_to_absolute s.disk (root_directory_start_sector p.header)) in
      let (res, stream', m) =
        disk_streamer_read drive stack stream cleared item (mul32 sectors 512) in
      let loaded = record s {
        heap = heap;
        memory = m;
        volume = record p {
          root_directory = record p.root_directory { item = item };
          directory_stream = stream';
        };
      } in
      if p.header.bytes_per_sector == 0
      then none
      else (if not_positive res then some (minus_one, loaded) else finish_root fuel loaded)

  -- the end of fat16_resolve, once the header has been found
  unfoldable pub finish_resolve : ℕ → FatState → ℕ → Option (ℤ × FatState)
  unfolding load_root_directory
  finish_resolve fuel s head_streamer = do
    (res, t) ← load_root_directory fuel s
    (if not (is_zero (res -ℤ pos 1))
        then some (minus_one, t)
        else some (pos 0, record t { heap = disk_streamer_close t.heap head_streamer }))

  -- fat16_resolve: the disk's private struct is the new one from the moment that it is bound
  unfoldable pub fat16_resolve : ℕ → FatState → Option (ℤ × FatState)
  unfolding finish_resolve fat16_init_private
  fat16_resolve fuel s =
      let id = int_value s.disk.id in
      let (private, h, cleared) = kzalloc s.heap s.memory sizeof_private in
      let (g, p) = fat16_init_private h id in
      let (head_streamer, f, head) = create_disk_streamer g id in
      let (res, head', m) =
        disk_streamer_read drive stack head (memset cleared private 0 sizeof_private) private
          sizeof_header in
      let failed = record s { heap = f; memory = memset cleared private 0 sizeof_private } in
      let header = header_of m private in
      let bound = record s {
        heap = f;
        memory = m;
        disk = record s.disk { fs_private = private };
        volume = record p { header = header };
      } in
      if head_streamer == 0
      then some (minus_one, failed)
      else (if not_positive res || not (header.signature == 0x29)
          then some (minus_one, record failed { memory = m })
          else finish_resolve fuel bound head_streamer)
