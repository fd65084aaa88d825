-- ===== src/Disk/Tests.antt =====
-- The theorems of the disk at concrete reads, and tests.
use simple_microkernel.Base.{ℕ, ◌+◌, ◌*◌, ◌≡◌, refl, inl, pos, minus_one, arith}
use simple_microkernel.Memory.{Bytes}
use simple_microkernel.Disk.{
  DiskStream, disk_address, lba_registers, selected, disk_get, disk_streamer_read, disk_read_block,
}
use simple_microkernel.Disk.Stream.{
  StreamRead, disk_streamer_read-StreamRead, disk_streamer_read-overrun,
}

-- a drive whose words tell their places
abbrev counting : ℕ → ℕ → ℕ
counting sector i = sector * 16 + i

abbrev stack_bytes : Bytes
stack_bytes a = 7

abbrev stream_at : ℕ → DiskStream
stream_at p = record { pos = p; disk = disk_address }

no_disk : disk_get (pos 3) ≡ 0
unfolding disk_get
no_disk = refl

other_disk : (disk_read_block counting stack_bytes 5 0 1 0).0 ≡ minus_one
unfolding disk_read_block
other_disk = refl

large_sector : selected (lba_registers 0x123456) ≡ 0x123456
large_sector = refl

disk_streamer_read-StreamRead_example :
    StreamRead counting
      (stream_at 1024)
      stack_bytes
      100
      600
      (disk_streamer_read counting stack_bytes (stream_at 1024) stack_bytes 100 600)
disk_streamer_read-StreamRead_example =
    disk_streamer_read-StreamRead counting stack_bytes (stream_at 1024) stack_bytes 100 600 refl
      (omega arith) (omega arith) (inl refl)

disk_streamer_read-overrun_example :
    (disk_streamer_read counting stack_bytes (stream_at 510) stack_bytes 100 4).2 103 ≡ 7
disk_streamer_read-overrun_example =
    disk_streamer_read-overrun counting stack_bytes (stream_at 510) stack_bytes 100 4 3 refl
      (omega arith) (omega arith) (omega arith) (omega arith) (omega arith)
