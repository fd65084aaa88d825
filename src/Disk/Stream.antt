-- ===== src/Disk/Stream.antt =====
-- What a read of a stream delivers.
use native.Mathlib.Decide.{ℕ_discrete}
use simple_microkernel.Base.{
  ℕ, zero, suc, ◌+◌, ◌-◌, ◌/◌, ◌%◌, ◌^◌, ◌≤◌, ◌<◌, ◌≡◌, ◌⊎◌, inl, inr, refl, sym, ◌∙◌, ap, ◌==◌,
  if◌then◌else◌, true, false, ltb, Bool-cases, lt→ltb, ltb→lt, le→ltb, eq→==, ne→==, update,
  update_self, update_ne, array_loop, add32, ℤ, pos, is_negative, ◌+ℤ◌, arith,
}
use simple_microkernel.Memory.{Bytes}
use simple_microkernel.Memory.Fill.{Outside}
use simple_microkernel.Disk.{
  DiskStream, disk_address, disk_read_block, read_chunk, add_result, read_rounds,
  disk_streamer_read,
}
use simple_microkernel.Disk.Sector.{disk_byte, disk_read_block-sector}

-- a loop that stores the bytes `f` from `out` on
module _ (out : ℕ) (f : ℕ → ℕ) where
  abbrev store_at : ℕ → Bytes → Bytes
  store_at i m = update m (add32 out i) (f i)

  stored_out :
      (m : Bytes) (i n a : ℕ)
      → out + i + n ≤ 2 ^ 32
      → Outside (out + i) n a
      → array_loop store_at i n m a ≡ m a
  unfolding array_loop
  stored_out m i zero a h o = refl
  stored_out m i (suc n) a h o =
      stored_out (store_at i m) (suc i) n a (omega arith) (omega arith)
      ∙ update_ne m (add32 out i) (f i) a (omega arith)

  stored_in :
      (m : Bytes) (i n k : ℕ)
      → out + i + n ≤ 2 ^ 32
      → i ≤ k
      → k < i + n
      → array_loop store_at i n m (out + k) ≡ f k
  unfolding array_loop
  stored_in m i zero k h l u = absurd (omega arith)
  stored_in m i (suc n) k h l u = elim (ℕ_discrete i k) [
    | yes same ↦
        let here : add32 out i ≡ out + k = omega arith in
        stored_out (store_at i m) (suc i) n (out + k) (omega arith) (omega arith)
        ∙ ap (store_at i m) (sym here)
        ∙ update_self m (add32 out i) (f i)
        ∙ ap f same
    | no other ↦ stored_in (store_at i m) (suc i) n k (omega arith) (omega arith) (omega arith)
  ]

-- A read of `total` bytes into memory at `out` succeeds and delivers the bytes of the disk from the
-- stream's position on.
pub record StreamRead (drive : ℕ → ℕ → ℕ) (s : DiskStream) (m : Bytes) (out total : ℕ)
    (r : ℤ × DiskStream × Bytes) : Type 0 where
  pub blocks : (n : ℕ) × (r.0 ≡ pos (suc n))
  pub position : r.1.pos ≡ s.pos + total
  pub same_disk : r.1.disk ≡ s.disk
  pub bytes : (j : ℕ) → j < total → r.2 (out + j) ≡ disk_byte drive (s.pos + j)
  pub others : (a : ℕ) → Outside out total a → r.2 a ≡ m a

-- A read begins with a sector, or stays in one.
abbrev pub InSectors : ℕ → ℕ → Type 0
InSectors p total = (p % 512 ≡ 0) ⊎ (p % 512 + total ≤ 512)

sum_of_blocks : (k n : ℕ) → pos (suc k) +ℤ pos (suc n) ≡ pos (suc (k + n + 1))
sum_of_blocks k n = ground arith

module _ (drive : ℕ → ℕ → ℕ) (stack : Bytes) where
  -- the bytes of a chunk, in the buffer on the stack
  buffered :
      (p n j : ℕ)
      → p < 2 ^ 32
      → p % 512 + n ≤ 512
      → j < n
      → (disk_read_block drive stack disk_address (p / 512) 1 0).1 (add32 (p % 512) j)
        ≡ disk_byte drive (p + j)
  buffered p n j b h l =
      let i : add32 (p % 512) j ≡ p % 512 + j = omega arith in
      let in_sector : ltb (p % 512 + j) 512 ≡ true = lt→ltb (p % 512 + j) 512 (omega arith) in
      let sector : (p + j) / 512 ≡ p / 512 = omega arith in
      let place : (p + j) % 512 ≡ p % 512 + j = omega arith in
      let read = (disk_read_block-sector drive stack (p / 512) (p % 512 + j) (omega arith)).1 in
      rw (i, sector, place) (rw in_sector at read)

  -- the sector is 0 where the position is
  sector_at : (p : ℕ) → (if p == 0 then 0 else p / 512) ≡ p / 512
  sector_at p = elim (ℕ_discrete p 0) [
    | yes z ↦ rw (eq→== p 0 z, z) refl
    | no nz ↦ rw (ne→== p 0 nz) refl
  ]

  chunk-StreamRead :
      (s : DiskStream) (m : Bytes) (out total n : ℕ)
      → (if ltb 512 total then 512 else total) ≡ n
      → s.disk ≡ disk_address
      → s.pos + n < 2 ^ 32
      → out + n ≤ 2 ^ 32
      → s.pos % 512 + n ≤ 512
      → StreamRead drive s m out n (read_chunk drive stack s m out total)
  unfolding read_chunk
  chunk-StreamRead s m out total n size disk h g one =
      let done = (disk_read_block-sector drive stack (s.pos / 512) 0 (omega arith)).0 in
      let f = λ (i : ℕ).
        (disk_read_block drive stack disk_address (s.pos / 512) 1 0).1 (add32 (s.pos % 512) i) in
      rw (disk, sector_at s.pos, size, done)
        (record {
          blocks = (0, refl);
          position = omega arith;
          same_disk = refl;
          bytes = λ j l.
              stored_in out f m 0 n j (omega arith) (omega arith) (omega arith)
              ∙ buffered s.pos n j (omega arith) one l;
          others = λ a o. stored_out out f m 0 n a (omega arith) (omega arith);
        })

  -- a chunk of 512 bytes, and the rest
  joined-StreamRead :
      (s : DiskStream) (m : Bytes) (out total : ℕ) (a b : ℤ × DiskStream × Bytes)
      → out + (512 + total) ≤ 2 ^ 32
      → StreamRead drive s m out 512 a
      → StreamRead drive a.1 a.2 (out + 512) total b
      → StreamRead drive s m out (512 + total) (add_result a.0 b)
  joined-StreamRead s m out total a b fits p q =
      let (k, e) = p.blocks in
      let (n, e') = q.blocks in
      record {
        blocks = (k + n + 1, rw (e, e') (sum_of_blocks k n));
        position = omega (arith, p.position, q.position);
        same_disk = q.same_disk ∙ p.same_disk;
        bytes = λ j l. elim (Bool-cases (ltb j 512)) [
          | inl first ↦
              let l' : j < 512 = ground (arith, first) in
              q.others (out + j) (omega arith) ∙ p.bytes j l'
          | inr later ↦
              let l' : 512 ≤ j = ground (arith, later) in
              let place : out + j ≡ out + 512 + (j - 512) = omega arith in
              let source : a.1.pos + (j - 512) ≡ s.pos + j = omega (arith, p.position) in
              ap b.2 place ∙ q.bytes (j - 512) (omega arith) ∙ ap (disk_byte drive) source
        ];
        others = λ x o. q.others x (omega arith) ∙ p.others x (omega arith);
      }

  rounds-StreamRead :
      (rounds total : ℕ) (s : DiskStream) (m : Bytes) (out : ℕ)
      → total / 512 ≡ rounds
      → s.disk ≡ disk_address
      → s.pos + total < 2 ^ 32
      → out + total ≤ 2 ^ 32
      → InSectors s.pos total
      → StreamRead drive s m out total (read_rounds drive stack rounds s m out total)
  unfolding read_rounds
  rounds-StreamRead zero total s m out e disk h g one =
      let small : ltb 512 total ≡ false = le→ltb 512 total (omega arith) in
      chunk-StreamRead s m out total total (rw small refl) disk h g (omega arith)
  rounds-StreamRead (suc rounds) total s m out e disk h g one = elim (Bool-cases (ltb 512 total)) [
    | inl large ↦
        let n : 512 < total = ltb→lt 512 total large in
        let c =
          chunk-StreamRead s m out total 512 (rw large refl) disk (omega arith) (omega arith)
            (omega arith) in
        let success = ap is_negative c.blocks.1 in
        let next : add32 out 512 ≡ out + 512 = omega arith in
        let position = c.position in
        let whole : 512 + (total - 512) ≡ total = omega arith in
        let a = read_chunk drive stack s m out total in
        let rest =
          rounds-StreamRead rounds (total - 512) a.1 a.2 (out + 512) (omega arith)
            (c.same_disk ∙ disk) (omega arith) (omega arith) (omega arith) in
        rw (success, large, next)
          (rw whole at (
            joined-StreamRead s m out (total - 512) a
              (read_rounds drive stack rounds a.1 a.2 (out + 512) (total - 512)) (omega arith) c
              rest))
    | inr small ↦
        let same : total ≡ 512 = ground (arith, small) in
        let c = chunk-StreamRead s m out total total (rw small refl) disk h g (omega arith) in
        let success = ap is_negative c.blocks.1 in rw (success, small) c
  ]

-- disk_streamer_read delivers the bytes of the disk from the stream's position on, moves the stream
-- behind them and changes no other memory, if the read starts at a sector's first byte or stays in
-- one sector.
pub disk_streamer_read-StreamRead :
    (drive : ℕ → ℕ → ℕ) (stack : Bytes) (s : DiskStream) (m : Bytes) (out total : ℕ)
    → s.disk ≡ disk_address
    → s.pos + total < 2 ^ 32
    → out + total ≤ 2 ^ 32
    → InSectors s.pos total
    → StreamRead drive s m out total (disk_streamer_read drive stack s m out total)
unfolding disk_streamer_read
disk_streamer_read-StreamRead drive stack s m out total disk h g one =
    rounds-StreamRead drive stack (total / 512) total s m out refl disk h g one

-- A read of less than 512 bytes that runs over the end of its sector delivers, from there on, bytes
-- of the stack that lie behind the buffer.
pub disk_streamer_read-overrun :
    (drive : ℕ → ℕ → ℕ) (stack : Bytes) (s : DiskStream) (m : Bytes) (out total j : ℕ)
    → s.disk ≡ disk_address
    → s.pos + total < 2 ^ 32
    → out + total ≤ 2 ^ 32
    → total < 512
    → j < total
    → 512 ≤ s.pos % 512 + j
    → (disk_streamer_read drive stack s m out total).2 (out + j) ≡ stack (s.pos % 512 + j)
unfolding disk_streamer_read read_rounds read_chunk
disk_streamer_read-overrun drive stack s m out total j disk h g small l over =
    let none : total / 512 ≡ 0 = omega arith in
    let size : ltb 512 total ≡ false = le→ltb 512 total (omega arith) in
    let read = disk_read_block-sector drive stack (s.pos / 512) (s.pos % 512 + j) (omega arith) in
    let behind : ltb (s.pos % 512 + j) 512 ≡ false = le→ltb (s.pos % 512 + j) 512 over in
    let f = λ (i : ℕ).
      (disk_read_block drive stack disk_address (s.pos / 512) 1 0).1 (add32 (s.pos % 512) i) in
    let i : add32 (s.pos % 512) j ≡ s.pos % 512 + j = omega arith in
    rw (none, disk, sector_at drive stack s.pos, size)
      (stored_in out f m 0 total j (omega arith) (omega arith) (omega arith)
        ∙ rw (i) (rw behind at read.1))
