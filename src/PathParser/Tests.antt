-- ===== src/PathParser/Tests.antt =====
-- The theorems of path_parser.c for concrete paths.
use simple_microkernel.Base.{◌≡◌, refl, ◌==◌, if◌then◌else◌, pos, arith}
use simple_microkernel.Memory.{Bytes}
use simple_microkernel.PathParser.{get_drive_by_path}
use simple_microkernel.PathParser.Drive.{get_drive_by_path-IsDrivePath}
use simple_microkernel.Kheap.{empty_slot}
use simple_microkernel.PathParser.Parts.{Parser}

-- "0:/a" at 16 and ":/" at 17, as part of it
abbrev text : Bytes
text a =
    if a == 16
    then 48
    else (if a == 17 then 58 else (if a == 18 then 47 else (if a == 19 then 97 else 0)))

get_drive_by_path-IsDrivePath_example : get_drive_by_path text 17 16 ≡ (pos 0, 19)
get_drive_by_path-IsDrivePath_example =
    get_drive_by_path-IsDrivePath text 17 16 0
      (record { fits = omega arith; colon = refl; slash = refl }) (omega arith)
      (record { digit = omega arith; first = refl; colon = refl; slash = refl; more = omega arith })

-- "ab/" at 0x200
abbrev ab : Bytes
ab a = if a == 0x200 then 0x61 else (if a == 0x201 then 0x62 else (if a == 0x202 then 0x2f else 0))

-- block 0 is used
abbrev parsing : Parser
parsing = record {
  path = 0x200;
  heap = record {
    pmm = record {
      memory_map = λ w. if w == 0 then 1 else 0;
      used_blocks = 1;
      free_blocks = 9;
      system_memory_size = 10;
    };
    big_blocks = λ i. empty_slot;
  };
  memory = ab;
}
