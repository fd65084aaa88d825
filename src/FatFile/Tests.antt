-- ===== src/FatFile/Tests.antt =====
-- The theorems of open files at a concrete file, and tests.
use simple_microkernel.Base.{◌≡◌, ◌⊎◌, refl, pos, minus_one}
use simple_microkernel.FatFile.{fat16_seek, fat16_stat}
use simple_microkernel.FatFile.Example.{opened}
use simple_microkernel.FatFile.Seek.{Refused, Sought, fat16_seek-cases}

stat_of_file :
    fat16_stat opened 0x7000 (record { flags = 9; filesize = 9 })
    ≡ (pos 1, record { flags = 1; filesize = 1000 })
unfolding fat16_stat
stat_of_file = refl

fat16_seek-cases_example :
    ((fat16_seek opened 0x7000 512 0 ≡ (minus_one, opened)) × Refused opened 0x7000 512 0)
    ⊎ Sought opened 0x7000 512 0 (fat16_seek opened 0x7000 512 0)
fat16_seek-cases_example = fat16_seek-cases opened 0x7000 512 0
