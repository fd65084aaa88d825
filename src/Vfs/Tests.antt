-- ===== src/Vfs/Tests.antt =====
-- The theorems of the files' tables at concrete states.
use simple_microkernel.Base.{
  ℕ, ltb, Option, some, none, [], ◌≡◌, ◌⊎◌, refl, sym, ◌∙◌, ◌==◌, if◌then◌else◌, pos, minus_one,
  arith,
}
use simple_microkernel.Kheap.{kmallac, kzalloc}
use simple_microkernel.Pmm.{allocate_block, get_first_free_block, first_free_from, memory_map_test}
use simple_microkernel.Memory.{Bytes}
use simple_microkernel.Fat16.Example.{small_drive, no_stack, small_volume-IsVolume, small-Chain}
use simple_microkernel.FatFile.{FatState, get_first_cluster}
use simple_microkernel.FatFile.Example.{opened}
use simple_microkernel.FatFile.Read.{MemberRead}
use simple_microkernel.Vfs.{
  FileMode, Filesystem, Literals, Vfs, sizeof_file_descriptor, file_get_descriptor,
  file_mode_get_by_string,
}
use simple_microkernel.Vfs.Files.{finish_open, fread}
use simple_microkernel.PathParser.Parts.{PathRoot, Parser, pathparser_parse}
use simple_microkernel.Vfs.Numbers.{parser_of}
use simple_microkernel.Vfs.Mode.{IsLetter, file_mode_get_by_string-cases}
use simple_microkernel.Vfs.Slots.{InUse}
use simple_microkernel.Vfs.Open.{Opened, Dispatches, finish_open-cases}
use simple_microkernel.Vfs.Fat.{fat16_fs, fread-MemberRead}

-- one file is open, under number 1
abbrev one_file : Vfs
one_file = record {
  fat = opened;
  filesystems = λ i. if i == 1 then 0x6000 else 0;
  file_descriptors = λ i. if i == 1 then 0x7100 else 0;
  descriptors = λ a. record { index = 1; filesystem = 0x6000; private = 0x7000; disk = 1 };
}

abbrev functions : ℕ → Filesystem
functions a = fat16_fs small_drive no_stack 100 0xb000

abbrev modes : Literals
modes = record { r = 0x100; w = 0x102; a = 0x104; colon_slash = 0x106 }

-- the literals, and "w" at 0x200
abbrev mode_bytes : Bytes
mode_bytes a =
    if a == 0x100 then 0x72 else (if a == 0x104 then 0x61 else (if a == 0x101 then 0 else 0x77))

file_mode_get_by_string-cases_example :
    (IsLetter 0x72 0x77 × (file_mode_get_by_string modes mode_bytes 0x200 ≡ FileMode.read))
    ⊎ (IsLetter 0x77 0x77 × (file_mode_get_by_string modes mode_bytes 0x200 ≡ FileMode.append))
    ⊎ ((¬ IsLetter 0x72 0x77)
        × (¬ IsLetter 0x77 0x77)
        × (file_mode_get_by_string modes mode_bytes 0x200 ≡ FileMode.write))
file_mode_get_by_string-cases_example =
    file_mode_get_by_string-cases modes mode_bytes 0x200 (record { r = refl; w = refl; a = refl })
      (omega arith)

fread-MemberRead_example :
    (r : FatState) × (fread functions one_file 0xa000 1000 1 (pos 1)
      ≡ (pos 1, record one_file { fat = r }))
    × MemberRead small_drive opened 0x7000 1000 0xa000 (pos 1, r)
unfolding get_first_cluster file_get_descriptor
fread-MemberRead_example =
    fread-MemberRead small_drive no_stack 100 0xb000 one_file (pos 1) functions 0x7000 0 1 1000
      0xa000 (λ e. let x : 0x7100 ≡ 0 = e in absurd (omega arith)) refl refl (omega arith)
      small_volume-IsVolume small-Chain refl (omega arith) (omega arith) (omega arith) (omega arith)
      (omega arith)

a_block : (kzalloc opened.heap opened.memory sizeof_file_descriptor).0 ≡ 4096
unfolding kzalloc kmallac allocate_block get_first_free_block first_free_from memory_map_test
a_block = refl

finish_open-cases_example :
    ((finish_open one_file 0x6000 0x7000 1 ≡ (minus_one, one_file))
      × InUse one_file.file_descriptors 1 511)
    ⊎ (Opened one_file 0x6000 0x7000 1 (finish_open one_file 0x6000 0x7000 1)
        × Dispatches functions 0x6000 0x7000
            (finish_open one_file 0x6000 0x7000 1).1
            (finish_open one_file 0x6000 0x7000 1).0)
finish_open-cases_example =
    finish_open-cases functions one_file 0x6000 0x7000 1
      (λ e. let x : 4096 ≡ 0 = sym a_block ∙ e in absurd (omega arith))

-- "0:/a" at 16, with ":/" as part of it, and the modes from 0x100 on
abbrev path_bytes : Bytes
path_bytes a =
    if ltb a 0x100
    then (if a == 16
        then 48
        else (if a == 17 then 58 else (if a == 18 then 47 else (if a == 19 then 97 else 0))))
    else mode_bytes a

abbrev with_path : Vfs
with_path = record one_file { fat = record opened { memory = path_bytes } }

abbrev literals : Literals
literals = record { r = 0x100; w = 0x102; a = 0x104; colon_slash = 17 }

-- a filesystem that finds every file
abbrev finding : ℕ → Filesystem
finding a = record (functions a) { open_function = λ s part parts mode. some (0x7000, s) }

abbrev unwrap : Option (ℕ × PathRoot × Parser) → ℕ × PathRoot × Parser
unwrap none = (0, record { drive_path = minus_one; first = [] }, parser_of with_path 16)
unwrap (some r) = r

abbrev parse_result : ℕ × PathRoot × Parser
parse_result = unwrap (pathparser_parse 5 100 17 (parser_of with_path 16))
