-- ===== src/Vfs/Open.antt =====
-- What fopen leaves for the calls that follow it.
use simple_microkernel.Base.{
  ℕ, false, ◌+◌, ◌≡◌, ◌≢◌, ◌⊎◌, inl, inr, refl, sym, ◌∙◌, le→ltb, ne→==, update, update_self, ℤ,
  pos, minus_one, lt_ℤ, word_value, arith,
}
use simple_microkernel.Kheap.{kzalloc}
use simple_microkernel.FatFile.{FileStat}
use simple_microkernel.Vfs.{
  Filesystem, FileDescriptor, Vfs, sizeof_file_descriptor, file_get_descriptor,
}
use simple_microkernel.Vfs.Files.{finish_open, fread, fseek, fstat}
use simple_microkernel.Vfs.Slots.{IsFirstFree, InUse, NewDescriptor, file_new_descriptor-cases}

-- The file is open under the first free number: its descriptor names the filesystem, the private data
-- and the disk. All other numbers stand for what they stood for before.
pub record Opened (v : Vfs) (filesystem private disk : ℕ) (r : ℤ × Vfs) : Type 0 where
  pub entry : (i : ℕ) × IsFirstFree v.file_descriptors 1 511 i
  pub number : r.0 ≡ pos entry.0
  pub descriptor :
      r.1.descriptors (file_get_descriptor r.1 r.0)
      ≡ record { index = entry.0; filesystem = filesystem; private = private; disk = disk }
  pub address :
      file_get_descriptor r.1 r.0 ≡ (kzalloc v.fat.heap v.fat.memory sizeof_file_descriptor).0
  pub others : (fd : ℤ) → fd ≢ pos entry.0 → file_get_descriptor r.1 fd ≡ file_get_descriptor v fd

-- The calls that follow go to the functions of the file's own filesystem, with its private data.
pub record Dispatches (functions : ℕ → Filesystem) (filesystem private : ℕ) (t : Vfs) (fd : ℤ)
    : Type 0 where
  pub reads :
      (ptr size nmemb : ℕ)
      → size ≢ 0
      → nmemb ≢ 0
      → fread functions t ptr size nmemb fd ≡ (
        ((functions filesystem).read_function t.fat private size nmemb ptr).0,
        record t { fat = ((functions filesystem).read_function t.fat private size nmemb ptr).1 },
      )
  pub seeks :
      (offset : ℤ) (whence : ℕ)
      → fseek functions t fd offset whence ≡ (
        ((functions filesystem).seek_function t.fat private (word_value offset) whence).0,
        record t {
          fat = ((functions filesystem).seek_function t.fat private (word_value offset) whence).1;
        },
      )
  pub stats :
      (stat : FileStat)
      → fstat functions t fd stat ≡ (functions filesystem).stat_function t.fat private stat

filled-Opened :
    (v t : Vfs) (desc filesystem private disk : ℕ)
    → NewDescriptor v desc t
    → Opened v filesystem private disk (
      pos (t.descriptors desc).index,
      record t {
        descriptors = update t.descriptors desc (record (t.descriptors desc) {
          filesystem = filesystem;
          private = private;
          disk = disk;
        });
      },
    )
unfolding file_get_descriptor
filled-Opened v t desc filesystem private disk n =
    let d : FileDescriptor = record {
      index = n.entry.0;
      filesystem = filesystem;
      private = private;
      disk = disk;
    } in
    rw (n.index) (record {
      entry = n.entry;
      number = refl;
      descriptor = rw n.found (update_self t.descriptors desc d);
      address = n.found ∙ n.address;
      others = n.others;
    })

pub open-Dispatches :
    (functions : ℕ → Filesystem) (t : Vfs) (fd : ℤ) (d : FileDescriptor)
    → t.descriptors (file_get_descriptor t fd) ≡ d
    → file_get_descriptor t fd ≢ 0
    → lt_ℤ fd (pos 1) ≡ false
    → Dispatches functions d.filesystem d.private t fd
unfolding fread fseek fstat
open-Dispatches functions t fd d e nonzero low =
    let there = ne→== (file_get_descriptor t fd) 0 nonzero in
    record {
      reads = λ ptr size nmemb a b. rw (← e, there, low, ne→== size 0 a, ne→== nmemb 0 b) refl;
      seeks = λ offset whence. rw (← e, there) refl;
      stats = λ stat. rw (← e, there) refl;
    }

filled-Dispatches :
    (functions : ℕ → Filesystem) (v : Vfs) (filesystem private disk : ℕ) (r : ℤ × Vfs)
    → (kzalloc v.fat.heap v.fat.memory sizeof_file_descriptor).0 ≢ 0
    → Opened v filesystem private disk r
    → Dispatches functions filesystem private r.1 r.0
filled-Dispatches functions v filesystem private disk r allocated o =
    let (i, f) = o.entry in
    open-Dispatches functions r.1 r.0 _ o.descriptor (λ e. allocated (sym o.address ∙ e))
      (rw o.number (le→ltb (i + 0) (1 + 0) (omega (arith, f.low))))

-- the same, without what becomes of the number
pub finish_open-Opened :
    (v : Vfs) (filesystem private disk : ℕ)
    → ((finish_open v filesystem private disk ≡ (minus_one, v)) × InUse v.file_descriptors 1 511)
      ⊎ Opened v filesystem private disk (finish_open v filesystem private disk)
unfolding finish_open
finish_open-Opened v filesystem private disk = elim (file_new_descriptor-cases v) [
  | inl (r, all) ↦ rw r (inl (refl, all))
  | inr (desc, t, r, n) ↦ rw r (inr (filled-Opened v t desc filesystem private disk n))
]

-- fopen, once the filesystem has opened the file, either fails because all numbers are in use, and
-- changes nothing; or the file is open, and fread, fseek and fstat of its number are the functions of
-- its own filesystem, with its private data. The descriptor's allocation must succeed.
pub finish_open-cases :
    (functions : ℕ → Filesystem) (v : Vfs) (filesystem private disk : ℕ)
    → (kzalloc v.fat.heap v.fat.memory sizeof_file_descriptor).0 ≢ 0
    → ((finish_open v filesystem private disk ≡ (minus_one, v)) × InUse v.file_descriptors 1 511)
      ⊎ (Opened v filesystem private disk (finish_open v filesystem private disk)
          × Dispatches functions filesystem private
              (finish_open v filesystem private disk).1
              (finish_open v filesystem private disk).0)
unfolding finish_open
finish_open-cases functions v filesystem private disk allocated =
    elim (file_new_descriptor-cases v) [
      | inl (r, all) ↦ rw r (inl (refl, all))
      | inr (desc, t, r, n) ↦
          let o = filled-Opened v t desc filesystem private disk n in
          rw r (inr (o, filled-Dispatches functions v filesystem private disk _ allocated o))
    ]
