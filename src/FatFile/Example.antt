-- ===== src/FatFile/Example.antt =====
-- An open file on a small volume, for the tests.
use simple_microkernel.Base.{◌==◌, if◌then◌else◌}
use simple_microkernel.Memory.{Bytes}
use simple_microkernel.Kheap.{empty_slot}
use simple_microkernel.Fat16.Example.{small_disk, small_volume}
use simple_microkernel.FatFile.{FatState}

-- the item at 0x9000 is read only, begins with cluster 2 and has 1000 bytes
abbrev pub item_bytes : Bytes
item_bytes a =
    if a == 0x900b
    then 1
    else (if a == 0x901a then 2 else (if a == 0x901c then 0xe8 else (if a == 0x901d then 3 else 0)))

-- a descriptor at 0x7000 for the file of cluster 2
abbrev pub opened : FatState
opened = record {
  heap = record {
    pmm = record {
      memory_map = λ w. if w == 0 then 1 else 0;
      used_blocks = 1;
      free_blocks = 9;
      system_memory_size = 10;
    };
    big_blocks = λ i. empty_slot;
  };
  memory = item_bytes;
  items = λ a. record { item = 0x9000; item_type = 1 };
  directories = λ a. small_volume.root_directory;
  descriptors = λ a. record { item = 0x6000; pos = 0 };
  volume = small_volume;
  disk = small_disk;
}
