-- ===== src/Disk.antt =====
-- src/disk/disk.c and src/disk/streamer.c: the disk, and streams of its bytes. The drive behind the
-- ports is a parameter: it hands over the 256 words of a sector one after the other. The buffer
-- of a read lies on the stack, whose bytes are a second parameter.
pub mod Sector
pub mod Stream
mod Tests
use simple_microkernel.Base.{
  ℕ, zero, suc, ◌+◌, ◌-◌, ◌*◌, ◌/◌, ◌%◌, ◌^◌, ◌==◌, if◌then◌else◌, ltb, update, array_loop, add32,
  ℤ, pos, minus_one, is_negative, ◌+ℤ◌,
}
use simple_microkernel.Memory.{Bytes}
use simple_microkernel.Kheap.{Heap, kmallac, kfree}

-- `&disk`: the address of the only disk. Nothing depends on its value, but it is not 0.
abbrev pub disk_address : ℕ
disk_address = 1

-- struct disk; the type is always 0
pub record Disk : Type 0 where
  pub sector_size : ℕ
  pub id : ℕ
  pub filesystem : ℕ
  pub fs_private : ℕ

-- the fields of `disk` after disk_search_init, which keeps what fs_resolve has found
unfoldable pub disk_search_init : Disk → ℕ → Disk
disk_search_init disk found = record disk { sector_size = 512; id = 0; filesystem = found }

-- disk_get
unfoldable pub disk_get : ℤ → ℕ
disk_get (pos zero) = disk_address
disk_get index = 0

-- the bytes of the three registers that take the sector's number
abbrev pub lba_registers : ℕ → ℕ × ℕ × ℕ
lba_registers lba = (lba % 256, lba / 2 ^ 8 % 256, lba / 2 ^ 16 % 256)

-- the sector that the drive looks for
abbrev pub selected : ℕ × ℕ × ℕ → ℕ
selected (low, middle, high) = low + middle * 2 ^ 8 + high * 2 ^ 16

-- `*ptr = inw(0x1F0)`
abbrev pub put_word : Bytes → ℕ → ℕ → Bytes
put_word m ptr word = update (update m ptr (word % 256)) (add32 ptr 1) (word / 256)

-- struct disk_stream
pub record DiskStream : Type 0 where
  pub pos : ℕ
  pub disk : ℕ

-- create_disk_streamer, with the address of the struct; where there is no memory, the struct is
-- written at address 0
unfoldable pub create_disk_streamer : Heap → ℤ → ℕ × Heap × DiskStream
create_disk_streamer h disk_id =
    let disk = disk_get disk_id in
    let (streamer, g) = kmallac h 8 in
    if disk == 0
    then (0, h, record { pos = 0; disk = 0 })
    else (streamer, g, record { pos = 0; disk = disk })

-- disk_streamer_seek, which returns 0
unfoldable pub disk_streamer_seek : DiskStream → ℕ → DiskStream
disk_streamer_seek streamer p = record streamer { pos = p }

-- disk_streamer_close
unfoldable pub disk_streamer_close : Heap → ℕ → Heap
disk_streamer_close h streamer = kfree h streamer

module _ (drive : ℕ → ℕ → ℕ) where
  -- the copy of one sector into memory
  abbrev pub copy_sector : ℕ → Bytes → ℕ → Bytes
  copy_sector sector m ptr =
      array_loop (λ i m. put_word m (add32 ptr (2 * i)) (drive sector i)) 0 256 m

  -- disk_read_sectors, which returns 0: the drive goes on to the next sector by itself
  unfoldable pub disk_read_sectors : Bytes → ℕ → ℕ → ℕ → Bytes
  disk_read_sectors m lba total buffer =
      array_loop (λ b m. copy_sector (selected (lba_registers lba) + b) m (add32 buffer (512 * b)))
        0 total m

  -- disk_read_block
  unfoldable pub disk_read_block : Bytes → ℕ → ℕ → ℕ → ℕ → ℤ × Bytes
  unfolding disk_read_sectors
  disk_read_block m idisk lba total buf =
      if idisk == disk_address then (pos 1, disk_read_sectors m lba total buf) else (minus_one, m)

-- the end of disk_streamer_read, with what the recursive call has returned
abbrev pub add_result : ℤ → ℤ × DiskStream × Bytes → ℤ × DiskStream × Bytes
add_result res (more, stream, m) = (res +ℤ more, stream, m)

module _ (drive : ℕ → ℕ → ℕ) (stack : Bytes) where
  -- disk_streamer_read up to the advance of the stream
  unfoldable pub read_chunk : DiskStream → Bytes → ℕ → ℕ → ℤ × DiskStream × Bytes
  unfolding disk_read_block
  read_chunk stream m out total =
      let sector = if stream.pos == 0 then 0 else stream.pos / 512 in
      let offset = stream.pos % 512 in
      let (res, buffer) = disk_read_block drive stack stream.disk sector 1 0 in
      let total_to_read = if ltb 512 total then 512 else total in
      if is_negative res then (res, stream, m) else (
        res,
        record stream { pos = add32 stream.pos total_to_read },
        array_loop (λ i m. update m (add32 out i) (buffer (add32 offset i))) 0 total_to_read m,
      )

  -- disk_streamer_read with as many recursive calls as `rounds`
  unfoldable pub read_rounds : ℕ → DiskStream → Bytes → ℕ → ℕ → ℤ × DiskStream × Bytes
  read_rounds zero stream m out total = read_chunk stream m out total
  read_rounds (suc rounds) stream m out total =
      let (res, stream', m') = read_chunk stream m out total in
      let rest = add_result res (read_rounds rounds stream' m' (add32 out 512) (total - 512)) in
      if is_negative res
      then (res, stream', m')
      else (if ltb 512 total then rest else (res, stream', m'))

  -- disk_streamer_read; a call for more than 512 bytes calls itself for 512 fewer
  unfoldable pub disk_streamer_read : DiskStream → Bytes → ℕ → ℕ → ℤ × DiskStream × Bytes
  unfolding read_rounds
  disk_streamer_read stream m out total = read_rounds (total / 512) stream m out total
