-- ===== src/FatFile.antt =====
-- src/fs/fat16/fat16.c: open files, from fat16_read on. Directory items lie in memory as the disk has
-- them; the structs fat_item, fat16_directory and fat_file_descriptor are records in stores, found by
-- their addresses. What the code prints is left out.
pub mod Seek
pub mod Read
pub mod Example
mod Tests
use simple_microkernel.Base.{
  ℕ, zero, suc, ◌+◌, ◌-◌, ◌*◌, ◌/◌, ◌%◌, ◌^◌, ◌==◌, if◌then◌else◌, Bool, not, ltb, leb, update,
  add32, bit_and, bit_or, ℤ, pos, minus_one, int_value, is_negative,
}
use simple_microkernel.Memory.{Bytes}
use simple_microkernel.Kheap.{Heap}
use simple_microkernel.Disk.{Disk}
use simple_microkernel.Fat16.{Fat16Private, Fat16Directory, read_16, read_32, read_internal}

-- FAT_ITEM_TYPE_DIRECTORY, FAT_ITEM_TYPE_FILE, FAT_FILE_READ_ONLY, FAT_FILE_SUBDIRECTORY
abbrev pub item_type_directory : ℕ
item_type_directory = 0

abbrev pub item_type_file : ℕ
item_type_file = 1

abbrev pub file_read_only : ℕ
file_read_only = 0x01

abbrev pub file_subdirectory : ℕ
file_subdirectory = 0x10

-- the fields of a struct fat16_directory_item at `item`
abbrev pub item_attribute : Bytes → ℕ → ℕ
item_attribute m item = m (add32 item 11)

abbrev pub item_high_cluster : Bytes → ℕ → ℕ
item_high_cluster m item = read_16 m (add32 item 20)

abbrev pub item_low_cluster : Bytes → ℕ → ℕ
item_low_cluster m item = read_16 m (add32 item 26)

abbrev pub item_filesize : Bytes → ℕ → ℕ
item_filesize m item = read_32 m (add32 item 28)

-- struct fat_item: the address of a directory item or of a directory, by the type
pub record FatItem : Type 0 where
  pub item : ℕ
  pub item_type : ℕ

-- struct fat_file_descriptor
pub record FatFileDescriptor : Type 0 where
  pub item : ℕ
  pub pos : ℕ

-- struct file_stat
pub record FileStat : Type 0 where
  pub flags : ℕ
  pub filesize : ℕ

-- What the functions of the file system read and write.
pub record FatState : Type 0 where
  pub heap : Heap
  pub memory : Bytes
  pub items : ℕ → FatItem
  pub directories : ℕ → Fat16Directory
  pub descriptors : ℕ → FatFileDescriptor
  pub volume : Fat16Private
  pub disk : Disk

-- SEEK_SET, SEEK_CUR and SEEK_END
abbrev pub seek_set : ℕ
seek_set = 0

abbrev pub seek_cur : ℕ
seek_cur = 1

abbrev pub seek_end : ℕ
seek_end = 2

-- FILE_STAT_READ_ONLY
abbrev pub stat_read_only : ℕ
stat_read_only = 1

-- fat16_get_first_cluster
unfoldable pub get_first_cluster : Bytes → ℕ → ℕ
get_first_cluster m item = bit_or (item_high_cluster m item) (item_low_cluster m item)

-- the switch of fat16_seek
unfoldable pub seek_to : FatState → ℕ → ℕ → ℕ → ℤ × FatState
seek_to s desc offset seek_mode =
    let d = s.descriptors desc in
    if seek_mode == seek_set
    then (pos 0, record s { descriptors = update s.descriptors desc (record d { pos = offset }) })
    else (if seek_mode == seek_end
        then (minus_one, s)
        else (if seek_mode == seek_cur
            then (
              pos 0,
              record s {
                descriptors = update s.descriptors desc (record d { pos = add32 d.pos offset });
              },
            )
            else (minus_one, s)))

-- fat16_seek
unfoldable pub fat16_seek : FatState → ℕ → ℕ → ℕ → ℤ × FatState
unfolding seek_to
fat16_seek s desc offset seek_mode =
    let desc_item = s.items (s.descriptors desc).item in
    if not (desc_item.item_type == item_type_file)
    then (minus_one, s)
    else (if leb (item_filesize s.memory desc_item.item) offset
        then (minus_one, s)
        else seek_to s desc offset seek_mode)

-- fat16_stat, with what `stat` points at
unfoldable pub fat16_stat : FatState → ℕ → FileStat → ℤ × FileStat
fat16_stat s desc stat =
    let desc_item = s.items (s.descriptors desc).item in
    if not (desc_item.item_type == item_type_file) then (minus_one, stat) else (
      pos 1,
      record {
        filesize = item_filesize s.memory desc_item.item;
        flags =
            if bit_and (item_attribute s.memory desc_item.item) file_read_only == 0
            then 0
            else bit_or 0 stat_read_only;
      },
    )

module _ (drive : ℕ → ℕ → ℕ) (stack : Bytes) where
  -- the loop of fat16_read, with the rounds that it has left
  unfoldable pub read_members :
      ℕ → Disk → Fat16Private → ℕ → ℕ → ℕ → Bytes → ℕ → Bool × Fat16Private × Bytes
  unfolding get_first_cluster
  read_members zero disk p item offset size m out = (Bool.true, p, m)
  read_members (suc rounds) disk p item offset size m out =
      let (res, p', m') =
        read_internal drive stack disk p (get_first_cluster m item) offset size m out in
      let rest = read_members rounds disk p' item (add32 offset size) size m' (add32 out size) in
      if is_negative res then (Bool.false, p', m') else rest

  -- fat16_read; `nmemb` is returned as an `int`
  unfoldable pub fat16_read : FatState → ℕ → ℕ → ℕ → ℕ → ℤ × FatState
  unfolding read_members
  fat16_read s descriptor size nmemb out =
      let fat_desc = s.descriptors descriptor in
      let item = (s.items fat_desc.item).item in
      let (ok, p, m) = read_members nmemb s.disk s.volume item fat_desc.pos size s.memory out in
      (if ok then int_value nmemb else minus_one, record s { volume = p; memory = m })
