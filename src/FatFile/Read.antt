-- ===== src/FatFile/Read.antt =====
-- What fat16_read delivers.
use simple_microkernel.Base.{ℕ, suc, ◌+◌, ◌*◌, ◌^◌, ◌≤◌, ◌<◌, ◌≡◌, refl, ap, ℤ, pos, is_negative}
use simple_microkernel.Memory.{Bytes}
use simple_microkernel.Memory.Fill.{Outside}
use simple_microkernel.Fat16.Table.{IsVolume}
use simple_microkernel.Fat16.Chain.{Chain, SameVolume}
use simple_microkernel.Fat16.Clusters.{size_of}
use simple_microkernel.Fat16.Files.{file_byte, read_internal-FileRead}
use simple_microkernel.FatFile.{FatState, get_first_cluster, read_members, fat16_read}
use simple_microkernel.FatFile.Seek.{item_of}

-- the first cluster of the file that a descriptor stands for
abbrev pub cluster_of : FatState → ℕ → ℕ
cluster_of s desc = get_first_cluster s.memory (item_of s desc).item

-- The read of one member of `size` bytes; the descriptor stays where it is.
pub record MemberRead (drive : ℕ → ℕ → ℕ) (s : FatState) (desc size out : ℕ) (r : ℤ × FatState)
    : Type 0 where
  pub done : r.0 ≡ pos 1
  pub bytes :
      (j : ℕ)
      → j < size
      → r.1.memory (out + j)
        ≡ file_byte drive s.volume (cluster_of s desc) ((s.descriptors desc).pos + j)
  pub others : (a : ℕ) → Outside out size a → r.1.memory a ≡ s.memory a
  pub descriptors : r.1.descriptors ≡ s.descriptors
  pub volume : SameVolume s.volume r.1.volume

-- fat16_read of one member, at a descriptor that stands at the first byte of a cluster, returns 1
-- and delivers the bytes of the file from there on; it does not move the descriptor. The clusters of
-- the chain must reach to the end of what is read, position and size together lie below 2 ^ 31, and
-- every read in the first 4 GB of the disk.
pub fat16_read-MemberRead :
    (drive : ℕ → ℕ → ℕ) (stack : Bytes) (s : FatState) (desc q n size out : ℕ)
    → IsVolume s.disk s.volume
    → Chain drive s.volume.header (cluster_of s desc) n
    → (s.descriptors desc).pos ≡ q * size_of s.volume
    → q ≤ n
    → q * size_of s.volume + size ≤ suc n * size_of s.volume
    → q * size_of s.volume + size < 2 ^ 31
    → (s.volume.root_directory.ending_sector_pos + 65536 * s.volume.header.sectors_per_cluster)
          * 512
        + size
      < 2 ^ 32
    → out + size ≤ 2 ^ 32
    → MemberRead drive s desc size out (fat16_read drive stack s desc size 1 out)
unfolding fat16_read read_members
fat16_read-MemberRead drive stack s desc q n size out v ch at l enough b fits g =
    let c = cluster_of s desc in
    let read =
      read_internal-FileRead drive stack s.disk s.volume c q n size s.memory out v ch l enough b
        fits g in
    rw (at, ap is_negative read.done)
      (record {
        done = refl;
        bytes = λ j h. rw at (read.bytes j h);
        others = read.others;
        descriptors = refl;
        volume = read.volume;
      })
