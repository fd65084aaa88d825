-- ===== src/FatVolume/Tests.antt =====
-- The theorems of the volume at a concrete root directory.
use simple_microkernel.Base.{ℕ, ◌≡◌, refl, ◌==◌, if◌then◌else◌, some, pos, arith}
use simple_microkernel.Pmm.{allocate_block, get_first_free_block, first_free_from, memory_map_test}
use simple_microkernel.Kheap.{kmallac, kzalloc}
use simple_microkernel.Disk.{DiskStream, disk_address}
use simple_microkernel.Fat16.Example.{no_stack, small_disk, small_volume}
use simple_microkernel.FatFile.{FatState}
use simple_microkernel.FatFile.Example.{opened}
use simple_microkernel.FatVolume.{get_total_items, load_root_directory}
use simple_microkernel.FatVolume.Count.{IsDirectoryAt, used_items, get_total_items_lem}
use simple_microkernel.FatVolume.Root.{IsHeader, RootLoaded, load_root_directory-RootLoaded}

-- A drive whose root directory, at sector 2, has two items, of which the second is deleted.
abbrev root_drive : ℕ → ℕ → ℕ
root_drive sector i =
    if sector == 2 then (if i == 0 then 0x41 else (if i == 16 then 0xe5 else 0)) else 0

two_items : IsDirectoryAt root_drive 1024 2
two_items = (λ e. absurd (omega arith), (λ e. absurd (omega arith), refl))

small_volume-IsHeader : IsHeader small_volume.header
small_volume-IsHeader = record { sector = refl; entries = omega arith; fits = omega arith }

root_block : (kzalloc opened.heap opened.memory 512).0 ≡ 4096
unfolding kzalloc kmallac allocate_block get_first_free_block first_free_from memory_map_test
root_block = refl

get_total_items_lem_example :
    (t : DiskStream) × (get_total_items root_drive no_stack 5 small_disk small_volume 2
      ≡ some (pos (used_items root_drive 1024 2), record small_volume { directory_stream = t }))
    × (t.disk ≡ disk_address)
get_total_items_lem_example =
    get_total_items_lem root_drive no_stack 5 small_disk small_volume 2 2 refl refl (omega arith)
      (omega arith) (omega arith) two_items

load_root_directory-RootLoaded_example :
    (t : FatState) × (load_root_directory root_drive no_stack 5 opened ≡ some (pos 1, t))
    × RootLoaded root_drive opened 2 t
load_root_directory-RootLoaded_example =
    load_root_directory-RootLoaded root_drive no_stack 5 opened small_volume-IsHeader 2 refl refl
      (omega (arith, root_block)) (omega arith) (omega arith) (omega arith) two_items
