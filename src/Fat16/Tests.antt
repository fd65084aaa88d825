-- ===== src/Fat16/Tests.antt =====
-- The theorems of the file allocation table and the clusters at a concrete volume.
use simple_microkernel.Base.{◌≡◌, inl, inr, refl, pos, minus_one, arith}
use simple_microkernel.Fat16.{walk, read_internal}
use simple_microkernel.Fat16.Example.{
  small_drive, no_stack, small_disk, small_volume, small_volume-IsVolume, small-Chain,
}
use simple_microkernel.Fat16.Chain.{Walked, walk-Walked, walk-ended, walk-end_mark}
use simple_microkernel.Fat16.Files.{FileRead, read_internal-FileRead}

walk-Walked_example :
    Walked small_drive small_volume (pos 3) (walk small_drive no_stack 1 small_volume 2)
walk-Walked_example =
    walk-Walked small_drive no_stack small_disk 1 small_volume 2 small_volume-IsVolume small-Chain

walk-ended_example :
    Walked small_drive small_volume minus_one (walk small_drive no_stack 5 small_volume 4)
walk-ended_example =
    walk-ended small_drive no_stack small_disk 5 0 small_volume 4 (omega arith)
      small_volume-IsVolume (omega arith, omega arith) (inr (inr (inr (inl refl))))

walk-end_mark_example : (walk small_drive no_stack 1 small_volume 3).0 ≡ pos 0xffff
walk-end_mark_example =
    walk-end_mark small_drive no_stack small_disk small_volume 3 small_volume-IsVolume
      (omega arith, omega arith) (omega arith) (omega arith)

read_internal-FileRead_example :
    FileRead small_drive small_volume 2 0 1000 no_stack 0x5000
      (read_internal small_drive no_stack small_disk small_volume 2 0 1000 no_stack 0x5000)
read_internal-FileRead_example =
    read_internal-FileRead small_drive no_stack small_disk small_volume 2 0 1 1000 no_stack 0x5000
      small_volume-IsVolume small-Chain (omega arith) (omega arith) (omega arith) (omega arith)
      (omega arith)
