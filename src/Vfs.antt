-- ===== src/Vfs.antt =====
-- src/fs/file.c: the table of filesystems and that of open files. A filesystem is an interface, the
-- functions that its struct points at; fat16.c fills it. The string literals of the modes and of
-- the path parser lie in memory at addresses of their own. `none` is the endless loop of panic, or
-- fuel that runs out.
pub mod Files
pub mod Mode
pub mod Slots
pub mod Open
pub mod Numbers
pub mod Fat
mod Tests
use simple_microkernel.Base.{
  ℕ, zero, suc, ◌+◌, ◌-◌, ◌/◌, Bool, true, false, ◌==◌, if◌then◌else◌, not, ltb, leb, ◌||◌, ◌&&◌,
  Option, some, none, ◌>>=◌, List, [], ◌∷◌, update, ℤ, pos, pos_part, minus_one, is_negative, lt_ℤ,
  word_value,
}
use simple_microkernel.Memory.{Bytes}
use simple_microkernel.String.{istrncmp}
use simple_microkernel.Kheap.{Heap, kzalloc}
use simple_microkernel.PathParser.{is_zero}
use simple_microkernel.PathParser.Parts.{PathRoot, Parser, pathparser_parse}
use simple_microkernel.Disk.{Disk, disk_get}
use simple_microkernel.FatFile.{FatState, FileStat}

-- MAX_FILESYSTEMS and MAX_FILE_DESCRIPTORS
abbrev pub max_filesystems : ℕ
max_filesystems = 12

abbrev pub max_file_descriptors : ℕ
max_file_descriptors = 512

-- FILE_MODE_READ, FILE_MODE_WRITE, FILE_MODE_APPEND, FILE_MODE_INVALID
pub data FileMode : Type 0 where
  read : FileMode
  write : FileMode
  append : FileMode
  invalid : FileMode

-- struct filesystem: its functions act on the state of the disk's volume
pub record Filesystem : Type 0 where
  pub open_function : FatState → ℕ → List ℕ → FileMode → Option (ℕ × FatState)
  pub resolve_function : FatState → Option (ℤ × FatState)
  pub read_function : FatState → ℕ → ℕ → ℕ → ℕ → ℤ × FatState
  pub seek_function : FatState → ℕ → ℕ → ℕ → ℤ × FatState
  pub stat_function : FatState → ℕ → FileStat → ℤ × FileStat

-- struct file_descriptor
pub record FileDescriptor : Type 0 where
  pub index : ℕ
  pub filesystem : ℕ
  pub private : ℕ
  pub disk : ℕ

-- sizeof(struct file_descriptor)
abbrev pub sizeof_file_descriptor : ℕ
sizeof_file_descriptor = 16

-- The two tables, the descriptors at their addresses, and what lies below.
pub record Vfs : Type 0 where
  pub fat : FatState
  pub filesystems : ℕ → ℕ
  pub file_descriptors : ℕ → ℕ
  pub descriptors : ℕ → FileDescriptor

-- the addresses of the literals "r", "w", "a" and ":/"
pub record Literals : Type 0 where
  pub r : ℕ
  pub w : ℕ
  pub a : ℕ
  pub colon_slash : ℕ

-- the first entry of a table that is 0, from entry `i` on
unfoldable pub free_from : (ℕ → ℕ) → ℕ → ℕ → Option ℕ
free_from table zero i = none
free_from table (suc rounds) i =
    let rest = free_from table rounds (suc i) in if table i == 0 then some i else rest

-- fs_get_free_slot
unfoldable pub fs_get_free_slot : Vfs → Option ℕ
unfolding free_from
fs_get_free_slot v = free_from v.filesystems (max_filesystems - 1) 1

-- fs_insert_filesystem
unfoldable pub fs_insert_filesystem : Vfs → ℕ → Option Vfs
unfolding fs_get_free_slot
fs_insert_filesystem v fs = do
  slot ← fs_get_free_slot v
  some (record v { filesystems = update v.filesystems slot fs })

-- fs_static_load, with the address that fat16_init returns
unfoldable pub fs_static_load : Vfs → ℕ → Option Vfs
unfolding fs_insert_filesystem
fs_static_load v fat16_fs = fs_insert_filesystem v fat16_fs

-- fs_load: memset clears as many bytes as the table has entries, of 4 bytes each
unfoldable pub fs_load : Vfs → ℕ → Option Vfs
unfolding fs_static_load
fs_load v fat16_fs =
    let cleared = λ (i : ℕ). if ltb i (max_filesystems / 4) then 0 else v.filesystems i in
    fs_static_load (record v { filesystems = cleared }) fat16_fs

-- fs_init: the whole table of descriptors is cleared
unfoldable pub fs_init : Vfs → ℕ → Option Vfs
unfolding fs_load
fs_init v fat16_fs =
    let cleared = λ (i : ℕ). if ltb i max_file_descriptors then 0 else v.file_descriptors i in
    fs_load (record v { file_descriptors = cleared }) fat16_fs

-- file_get_descriptor
unfoldable pub file_get_descriptor : Vfs → ℤ → ℕ
file_get_descriptor v fd =
    if lt_ℤ fd (pos 1) || not (lt_ℤ fd (pos max_file_descriptors))
    then 0
    else v.file_descriptors (pos_part fd)

-- the descriptor for the free entry `i`: a failed allocation is not noticed
unfoldable pub take_descriptor : Vfs → ℕ → ℕ × Vfs
take_descriptor v i =
    let (desc, h, m) = kzalloc v.fat.heap v.fat.memory sizeof_file_descriptor in
    (
      desc,
      record v {
        fat = record v.fat { heap = h; memory = m };
        file_descriptors = update v.file_descriptors i desc;
        descriptors =
            update v.descriptors desc (record { index = i; filesystem = 0; private = 0; disk = 0 });
      },
    )

-- file_new_descriptor, with its result and `*desc_out`
unfoldable pub file_new_descriptor : Vfs → Option (ℕ × Vfs)
unfolding free_from take_descriptor
file_new_descriptor v = do
  i ← free_from v.file_descriptors (max_file_descriptors - 1) 1
  some (take_descriptor v i)

-- file_mode_get_by_string
unfoldable pub file_mode_get_by_string : Literals → Bytes → ℕ → FileMode
file_mode_get_by_string l m str =
    if is_zero (istrncmp m str l.r 1)
    then read
    else (if not (is_zero (istrncmp m str l.w 1))
        then write
        else (if not (is_zero (istrncmp m str l.a 1)) then append else invalid))

-- `f_mode==FILE_MODE_INVALID`
abbrev pub is_invalid : FileMode → Bool
is_invalid read = false
is_invalid write = false
is_invalid append = false
is_invalid invalid = true
