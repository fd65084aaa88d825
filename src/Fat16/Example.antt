-- ===== src/Fat16/Example.antt =====
-- A small volume, for the tests.
use simple_microkernel.Base.{ℕ, ◌+◌, ◌*◌, refl, ◌==◌, if◌then◌else◌, pos, arith}
use simple_microkernel.Memory.{Bytes}
use simple_microkernel.Disk.{Disk, DiskStream, disk_address}
use simple_microkernel.Fat16.{Fat16Private}
use simple_microkernel.Fat16.Table.{IsVolume}
use simple_microkernel.Fat16.Chain.{Chain}

-- A drive whose table begins at sector 1: cluster 2 is followed by cluster 3, the last of its chain,
-- and cluster 4 is a bad one.
abbrev pub small_drive : ℕ → ℕ → ℕ
small_drive sector i =
    if sector == 1
    then (if i == 2 then 3 else (if i == 3 then 0xffff else (if i == 4 then 0xff7 else 0)))
    else sector * 16 + i

abbrev pub no_stack : Bytes
no_stack a = 0

abbrev pub stream : DiskStream
stream = record { pos = 0; disk = disk_address }

abbrev pub small_disk : Disk
small_disk = record { sector_size = 512; id = 0; filesystem = 1; fs_private = 0x8000 }

abbrev pub small_volume : Fat16Private
small_volume = record {
  header = record {
    bytes_per_sector = 512;
    sectors_per_cluster = 1;
    reserved_sectors = 1;
    fat_copies = 1;
    root_dir_entries = 16;
    sectors_per_fat = 1;
    hidden_setors = 0;
    signature = 0x29;
  };
  root_directory = record {
    item = 0x9000;
    total_entries = pos 1;
    start_sector_pos = 2;
    ending_sector_pos = 3;
  };
  cluster_read_stream = stream;
  fat_read_stream = stream;
  directory_stream = stream;
}

pub small_volume-IsVolume : IsVolume small_disk small_volume
small_volume-IsVolume = record {
  sector = refl;
  same_sector = refl;
  cluster = omega arith;
  small_cluster = omega arith;
  table = omega arith;
  files = omega arith;
  fat_stream = refl;
  cluster_stream = refl;
}

pub small-Chain : Chain small_drive small_volume.header 2 1
small-Chain = ((omega arith, omega arith), refl, (omega arith, omega arith))
