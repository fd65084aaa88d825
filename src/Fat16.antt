-- ===== src/Fat16.antt =====
-- src/fs/fat16/fat16.c: the header, the file allocation table and the clusters. A pointer to the
-- disk's private struct is the struct itself, which a function that moves one of its streams
-- returns again. An `int` that stands for a position is kept as its 32-bit pattern, and
-- divided and compared as the integer that the pattern stands for.
pub mod Table
pub mod Chain
pub mod Ints
pub mod Multiples
pub mod Clusters
pub mod Files
pub mod Example
mod Tests
use simple_microkernel.Base.{
  ℕ, zero, suc, ◌+◌, ◌-◌, ◌*◌, ◌/◌, ◌%◌, ◌^◌, ◌==◌, if◌then◌else◌, Bool, ◌||◌, lt_ℤ, word_value,
  ◌/ℤ◌, ◌%ℤ◌, add32, sub32, mul32, bit_or, ℤ, pos, pos_part, minus_one, int_value, is_negative,
}
use simple_microkernel.Memory.{Bytes}
use simple_microkernel.Disk.{Disk, DiskStream, disk_streamer_seek, disk_streamer_read}

-- the fields of the header that the code reads
pub record Fat16Header : Type 0 where
  pub bytes_per_sector : ℕ
  pub sectors_per_cluster : ℕ
  pub reserved_sectors : ℕ
  pub fat_copies : ℕ
  pub root_dir_entries : ℕ
  pub sectors_per_fat : ℕ
  pub hidden_setors : ℕ
  pub signature : ℕ

-- little-endian fields of a packed struct
abbrev pub read_16 : Bytes → ℕ → ℕ
read_16 m p = m p + m (add32 p 1) * 2 ^ 8

abbrev pub read_32 : Bytes → ℕ → ℕ
read_32 m p = read_16 m p + read_16 m (add32 p 2) * 2 ^ 16

-- struct fat16_header, at its offsets
abbrev pub header_of : Bytes → ℕ → Fat16Header
header_of m p = record {
  bytes_per_sector = read_16 m (add32 p 11);
  sectors_per_cluster = m (add32 p 13);
  reserved_sectors = read_16 m (add32 p 14);
  fat_copies = m (add32 p 16);
  root_dir_entries = read_16 m (add32 p 17);
  sectors_per_fat = read_16 m (add32 p 22);
  hidden_setors = read_32 m (add32 p 28);
  signature = m (add32 p 38);
}

-- sizeof(struct fat16_header) and sizeof(struct fat16_directory_item)
abbrev pub sizeof_header : ℕ
sizeof_header = 62

abbrev pub sizeof_item : ℕ
sizeof_item = 32

-- struct fat16_directory
pub record Fat16Directory : Type 0 where
  pub item : ℕ
  pub total_entries : ℤ
  pub start_sector_pos : ℕ
  pub ending_sector_pos : ℕ

-- struct fat16_private
pub record Fat16Private : Type 0 where
  pub header : Fat16Header
  pub root_directory : Fat16Directory
  pub cluster_read_stream : DiskStream
  pub fat_read_stream : DiskStream
  pub directory_stream : DiskStream

-- FAT16_FAT_TABLE_ENTRY_SIZE and FAT16_BAD_SECTOR
abbrev pub fat_table_entry_size : ℕ
fat_table_entry_size = 2

abbrev pub bad_sector : ℕ
bad_sector = 0xff7

-- fat16_sectors_to_abosulute
abbrev pub sectors_to_absolute : Disk → ℕ → ℕ
sectors_to_absolute disk sector = mul32 disk.sector_size sector

-- fat16_cluster_to_sector
unfoldable pub cluster_to_sector : Fat16Private → ℕ → ℕ
cluster_to_sector p cluster =
    add32 p.root_directory.ending_sector_pos (mul32 (sub32 cluster 2) p.header.sectors_per_cluster)

-- fat16_get_first_fat_sector
unfoldable pub get_first_fat_sector : Fat16Private → ℕ
get_first_fat_sector p = add32 p.header.reserved_sectors p.header.hidden_setors

-- the test of the table's entries that end the walk: each `if` goes to `out` with -1
abbrev pub ends_chain : ℕ → Bool
ends_chain entry =
    (entry == 0xff8 || entry == 0xfff)
    || (entry == bad_sector || ((entry == 0xff0 || entry == 0xff6) || entry == 0))

-- the end of fat16_get_fat_entry; `result` is a variable of two bytes
abbrev pub entry_result : ℤ × DiskStream × Bytes → ℕ × DiskStream
entry_result (res, stream, result) =
    (if is_negative res then 0xffffffff else read_16 result 0, stream)

-- the size of a cluster in bytes
abbrev pub cluster_bytes : Disk → Fat16Private → ℕ
cluster_bytes disk p = mul32 p.header.sectors_per_cluster disk.sector_size

-- `offset / size` and `offset % size` of two `int`s; as the number of rounds of a loop, a negative
-- quotient is 0
abbrev pub clusters_in : Disk → Fat16Private → ℕ → ℕ
clusters_in disk p offset = pos_part (int_value offset /ℤ int_value (cluster_bytes disk p))

abbrev pub offset_in_cluster : Disk → Fat16Private → ℕ → ℕ
offset_in_cluster disk p offset = word_value (int_value offset %ℤ int_value (cluster_bytes disk p))

-- what one call of fat16_read_internal_from_stream reads of the cluster; the sizes are `int`s
abbrev pub bytes_to_read : Disk → Fat16Private → ℕ → ℕ
bytes_to_read disk p total =
    if lt_ℤ (int_value (cluster_bytes disk p)) (int_value total)
    then cluster_bytes disk p
    else total

module _ (drive : ℕ → ℕ → ℕ) (stack : Bytes) where
  -- fat16_get_fat_entry; disk_streamer_seek does not fail
  unfoldable pub get_fat_entry : Fat16Private → ℕ → ℕ × DiskStream
  unfolding get_first_fat_sector
  get_fat_entry p cluster =
      let table_start = mul32 (get_first_fat_sector p) p.header.bytes_per_sector in
      let stream =
        disk_streamer_seek p.fat_read_stream
          (add32 table_start (mul32 cluster fat_table_entry_size)) in
      entry_result (disk_streamer_read drive stack stream stack 0 2)

  -- the loop of fat16_get_cluster_for_offset, with the rounds that it has left
  unfoldable pub walk : ℕ → Fat16Private → ℕ → ℤ × Fat16Private
  walk zero p cluster = (int_value cluster, p)
  walk (suc rounds) p cluster =
      let (entry, stream) = get_fat_entry p cluster in
      let p' = record p { fat_read_stream = stream } in
      let rest = walk rounds p' entry in if ends_chain entry then (minus_one, p') else rest

  -- fat16_get_cluster_for_offset
  unfoldable pub get_cluster_for_offset : Disk → Fat16Private → ℕ → ℕ → ℤ × Fat16Private
  unfolding walk
  get_cluster_for_offset disk p starting_cluster offset =
      walk (clusters_in disk p offset) p starting_cluster

  -- the seek and the read of fat16_read_internal_from_stream in the cluster that was found
  unfoldable pub read_cluster :
      Disk → Fat16Private → ℕ → ℕ → ℕ → Bytes → ℕ → ℤ × Fat16Private × Bytes
  unfolding cluster_to_sector
  read_cluster disk p cluster_to_use offset total m out =
      let starting_sector = cluster_to_sector p cluster_to_use in
      let starting_pos =
        add32 (mul32 starting_sector disk.sector_size) (offset_in_cluster disk p offset) in
      let stream = disk_streamer_seek p.cluster_read_stream starting_pos in
      let (res, stream', m') = disk_streamer_read drive stack stream m out total in
      (res, record p { cluster_read_stream = stream' }, m')

  -- one call of fat16_read_internal_from_stream up to its recursive call
  abbrev pub read_found : Disk → ℤ × Fat16Private → ℕ → ℕ → Bytes → ℕ → ℤ × Fat16Private × Bytes
  read_found disk (cluster, p) offset total m out =
      if is_negative cluster
      then (minus_one, p, m)
      else read_cluster disk p (pos_part cluster) offset total m out

  -- fat16_read_internal_from_stream for the stream of clusters, with as many recursive calls as
  -- `rounds`
  unfoldable pub read_clusters :
      ℕ → Disk → Fat16Private → ℕ → ℕ → ℕ → Bytes → ℕ → ℤ × Fat16Private × Bytes
  read_clusters zero disk p cluster offset total m out =
      let (res, p', m') =
        read_found disk (get_cluster_for_offset disk p cluster offset) offset total m out in
      if is_negative res then (minus_one, p', m') else (pos 0, p', m')
  read_clusters (suc rounds) disk p cluster offset total m out =
      let total_to_read = bytes_to_read disk p total in
      let (res, p', m') =
        read_found disk (get_cluster_for_offset disk p cluster offset) offset total m out in
      let rest =
        read_clusters rounds disk p' cluster (add32 offset total_to_read)
          (sub32 total total_to_read) m' (add32 out total_to_read) in
      if is_negative res
      then (minus_one, p', m')
      else (if lt_ℤ (pos 0) (int_value (sub32 total total_to_read)) then rest else (pos 0, p', m'))

  -- fat16_read_internal; a call for more than a cluster calls itself for a cluster less
  unfoldable pub read_internal :
      Disk → Fat16Private → ℕ → ℕ → ℕ → Bytes → ℕ → ℤ × Fat16Private × Bytes
  unfolding read_clusters
  read_internal disk p starting_cluster offset total m out =
      read_clusters (clusters_in disk p total) disk p starting_cluster offset total m out
