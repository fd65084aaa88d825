-- ===== src/FatDirectory/Tests.antt =====
-- Tests of the search in directories.
use simple_microkernel.Base.{◌≡◌, refl, [], some}
use simple_microkernel.Fat16.Example.{small_drive, no_stack}
use simple_microkernel.FatFile.Example.{opened}
use simple_microkernel.FatDirectory.{fat16_open, clone_directory_item}

only_for_reading : fat16_open small_drive no_stack 5 opened 0xb000 0x200 [] 1 ≡ some (0, opened)
unfolding fat16_open
only_for_reading = refl

too_small : clone_directory_item opened 0x9000 31 ≡ (0, opened)
unfolding clone_directory_item
too_small = refl
