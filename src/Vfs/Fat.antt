-- ===== src/Vfs/Fat.antt =====
-- The functions of fat16.c as a filesystem of the table.
use simple_microkernel.Base.{
  Option, ◌>>=◌, some, add32, ℕ, suc, ◌+◌, ◌*◌, ◌^◌, ◌≤◌, ◌<◌, ◌≡◌, ◌≢◌, ◌∙◌, ap, refl, ℤ, pos,
  lt_ℤ, false, Bool-cases, inl, inr, arith,
}
use simple_microkernel.Memory.{Bytes}
use simple_microkernel.String.{strcpy}
use simple_microkernel.FatFile.{FatState, fat16_seek, fat16_stat, fat16_read}
use simple_microkernel.FatVolume.{fat16_resolve}
use simple_microkernel.FatDirectory.{fat16_open}
use simple_microkernel.Fat16.Table.{IsVolume}
use simple_microkernel.Fat16.Chain.{Chain}
use simple_microkernel.Fat16.Clusters.{size_of}
use simple_microkernel.FatFile.Read.{cluster_of, MemberRead, fat16_read-MemberRead}
use simple_microkernel.Vfs.{FileMode, Filesystem, Vfs, file_get_descriptor}
use simple_microkernel.Vfs.Files.{fread}
use simple_microkernel.Vfs.Open.{open-Dispatches}

-- the value of the enum
abbrev pub mode_value : FileMode → ℕ
mode_value FileMode.read = 0
mode_value FileMode.write = 1
mode_value FileMode.append = 2
mode_value FileMode.invalid = 3

-- fat16_fs; the local array of its search lies at `tmp_filename`
abbrev pub fat16_fs : (ℕ → ℕ → ℕ) → Bytes → ℕ → ℕ → Filesystem
fat16_fs drive stack fuel tmp_filename = record {
  open_function =
      λ s part parts mode. fat16_open drive stack fuel s tmp_filename part parts (mode_value mode);
  resolve_function = fat16_resolve drive stack fuel;
  read_function = fat16_read drive stack;
  seek_function = fat16_seek;
  stat_function = fat16_stat;
}

-- the place of the name in a struct filesystem, behind its five functions
abbrev pub name_offset : ℕ
name_offset = 20

-- fat16_init: the name, whose literal lies at `literal`, is copied into the struct at `fs`
unfoldable pub fat16_init : ℕ → Bytes → ℕ → ℕ → Option (ℕ × Bytes)
unfolding strcpy
fat16_init fuel m fs literal = do
  named ← strcpy fuel m (add32 fs name_offset) literal
  some (fs, named)

nonzero-positive : (t : Vfs) (fd : ℤ) → file_get_descriptor t fd ≢ 0 → lt_ℤ fd (pos 1) ≡ false
unfolding file_get_descriptor
nonzero-positive t fd there = elim (Bool-cases (lt_ℤ fd (pos 1))) [
  | inl low ↦ absurd (there (rw low refl))
  | inr high ↦ high
]

-- fread of one member, of a number whose descriptor belongs to the FAT16 filesystem, returns 1,
-- delivers the bytes of the file from the descriptor's position on, which is the first byte of a
-- cluster, and changes no other memory; the position stays where it is. The clusters of the chain must
-- reach to the end of what is read, position and size together lie below 2 ^ 31, and every read in
-- the first 4 GB of the disk.
pub fread-MemberRead :
    (drive : ℕ → ℕ → ℕ) (stack : Bytes) (fuel tmp_filename : ℕ) (t : Vfs) (fd : ℤ)
    (functions : ℕ → Filesystem) (private q n size ptr : ℕ)
    → file_get_descriptor t fd ≢ 0
    → (t.descriptors (file_get_descriptor t fd)).private ≡ private
    → functions (t.descriptors (file_get_descriptor t fd)).filesystem
      ≡ fat16_fs drive stack fuel tmp_filename
    → size ≢ 0
    → IsVolume t.fat.disk t.fat.volume
    → Chain drive t.fat.volume.header (cluster_of t.fat private) n
    → (t.fat.descriptors private).pos ≡ q * size_of t.fat.volume
    → q ≤ n
    → q * size_of t.fat.volume + size ≤ suc n * size_of t.fat.volume
    → q * size_of t.fat.volume + size < 2 ^ 31
    → (t.fat.volume.root_directory.ending_sector_pos
            + 65536 * t.fat.volume.header.sectors_per_cluster)
          * 512
        + size
      < 2 ^ 32
    → ptr + size ≤ 2 ^ 32
    → (r : FatState) × (fread functions t ptr size 1 fd ≡ (pos 1, record t { fat = r }))
      × MemberRead drive t.fat private size ptr (pos 1, r)
fread-MemberRead drive stack fuel tmp_filename t fd functions private q n size ptr there own fat16
      nz v ch at l enough b fits g =
    let read =
      fat16_read-MemberRead drive stack t.fat private q n size ptr v ch at l enough b fits g in
    let r = fat16_read drive stack t.fat private size 1 ptr in
    let d =
      open-Dispatches functions t fd (t.descriptors (file_get_descriptor t fd)) refl there
        (nonzero-positive t fd there) in
    (
      r.1,
      rw (own, fat16) at d.reads ptr size 1 nz (omega arith)
          ∙ ap (λ (x : ℤ). (x, record t { fat = r.1 })) read.done,
      record {
        done = refl;
        bytes = read.bytes;
        others = read.others;
        descriptors = read.descriptors;
        volume = read.volume;
      },
    )
