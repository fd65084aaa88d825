-- ===== src/Vfs/Numbers.antt =====
-- What fopen returns, and when it fails.
use simple_microkernel.Base.{ℕ, ◌≡◌, ◌≢◌, ◌⊎◌, ◌==◌, ◌||◌, Bool, false, Option, some, ℤ, minus_one}
use simple_microkernel.FatFile.{FatState}
use simple_microkernel.PathParser.Parts.{Parser}
use simple_microkernel.Vfs.{FileMode, Vfs, is_invalid}
use simple_microkernel.Vfs.Slots.{InUse}
use simple_microkernel.Vfs.Open.{Opened}

-- why fopen does not get as far as to ask the filesystem, for a path with a part
abbrev pub Refused : ℕ → ℕ → ℕ → FileMode → Type 0
Refused root disk filesystem mode =
    (root ≡ 0) ⊎ (disk ≡ 0) ⊎ (filesystem ≡ 0) ⊎ (mode ≡ FileMode.invalid)

pub record Accepted (root disk filesystem : ℕ) (mode : FileMode) : Type 0 where
  pub root_there : root ≢ 0
  pub disk_there : disk ≢ 0
  pub filesystem_there : filesystem ≢ 0
  pub valid : is_invalid mode ≡ false

-- the test of open_on
abbrev refuses : ℕ → ℕ → FileMode → Bool
refuses disk filesystem mode = disk == 0 || (filesystem == 0 || is_invalid mode)

-- what the parser starts from, and the state once it has returned
abbrev pub parser_of : Vfs → ℕ → Parser
parser_of v filename = record { path = filename; heap = v.fat.heap; memory = v.fat.memory }

abbrev pub parsed : Vfs → Parser → Vfs
parsed v s = record v { fat = record v.fat { heap = s.heap; memory = s.memory } }

-- the state once the filesystem has been asked
abbrev pub asked : Vfs → FatState → Vfs
asked v fat = record v { fat = fat }

-- The filesystem has been asked and has returned the private data `private`: fopen fails if there is
-- none or all numbers are in use, and the file is open otherwise.
abbrev pub Answered : Vfs → ℕ → ℕ → ℕ → Option (ℤ × Vfs) → Type 0
Answered u filesystem private disk result =
    ((result ≡ some (minus_one, u)) × ((private ≡ 0) ⊎ InUse u.file_descriptors 1 511))
    ⊎ ((private ≢ 0) × (r : ℤ × Vfs) × (result ≡ some r) × Opened u filesystem private disk r)
