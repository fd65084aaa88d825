-- ===== src/Vfs/Files.antt =====
-- src/fs/file.c: fs_resolve, and the calls on files, over the functions of the filesystems.
use simple_microkernel.Base.{
  ℕ, zero, suc, ◌==◌, if◌then◌else◌, ◌||◌, Option, some, none, ◌>>=◌, List, [], ◌∷◌, update, ℤ, pos,
  minus_one, lt_ℤ, word_value,
}
use simple_microkernel.PathParser.{is_zero}
use simple_microkernel.PathParser.Parts.{pathparser_parse}
use simple_microkernel.Disk.{disk_get}
use simple_microkernel.FatFile.{FileStat}
use simple_microkernel.Vfs.{
  max_filesystems, Filesystem, FileDescriptor, Vfs, Literals, file_get_descriptor,
  file_new_descriptor, file_mode_get_by_string, is_invalid,
}

-- the descriptor's fields, with what file_new_descriptor has returned
abbrev fill_descriptor : Vfs → ℕ → ℕ → ℕ → Option (ℕ × Vfs) → ℤ × Vfs
fill_descriptor v filesystem private disk none = (minus_one, v)
fill_descriptor v filesystem private disk (some (des, t)) =
    let d : FileDescriptor = record (t.descriptors des) {
      filesystem = filesystem;
      private = private;
      disk = disk;
    } in
    (pos d.index, record t { descriptors = update t.descriptors des d })

-- the end of fopen, with what open_function has returned
unfoldable pub finish_open : Vfs → ℕ → ℕ → ℕ → ℤ × Vfs
finish_open v filesystem private disk =
    fill_descriptor v filesystem private disk (file_new_descriptor v)

module _ (functions : ℕ → Filesystem) where
  -- the loop of fs_resolve from entry `i` on
  unfoldable pub resolve_from : ℕ → Vfs → ℕ → Option (ℕ × Vfs)
  resolve_from zero v i = some (0, v)
  resolve_from (suc rounds) v i =
      let fs = v.filesystems i in
      if fs == 0 then resolve_from rounds v (suc i) else (do
        (res, fat) ← (functions fs).resolve_function v.fat
        let t = record v { fat = fat }
        (if is_zero res then some (fs, t) else resolve_from rounds t (suc i)))

  -- fs_resolve
  unfoldable pub fs_resolve : Vfs → Option (ℕ × Vfs)
  unfolding resolve_from
  fs_resolve v = resolve_from max_filesystems v 0

  -- fopen of a path whose parts are `part` and `parts`, on the disk at `disk`
  unfoldable pub open_on : Literals → Vfs → ℕ → List ℕ → ℕ → Option (ℤ × Vfs)
  unfolding finish_open
  open_on l v disk [] mode = some (minus_one, v)
  open_on l v disk (part ∷ parts) mode =
      let filesystem = v.fat.disk.filesystem in
      let f_mode = file_mode_get_by_string l v.fat.memory mode in
      if disk == 0 || (filesystem == 0 || is_invalid f_mode) then some (minus_one, v) else (do
        (private, fat) ← (functions filesystem).open_function v.fat part parts f_mode
        let t = record v { fat = fat }
        (if private == 0
            then some (minus_one, t)
            else some (finish_open t filesystem private disk)))

  -- fopen
  unfoldable pub fopen : ℕ → ℕ → Literals → Vfs → ℕ → ℕ → Option (ℤ × Vfs)
  unfolding open_on pathparser_parse
  fopen rounds fuel l v filename mode = do
    (root_path, r, s) ←
        pathparser_parse rounds fuel l.colon_slash
          (record { path = filename; heap = v.fat.heap; memory = v.fat.memory })
    let t = record v { fat = record v.fat { heap = s.heap; memory = s.memory } }
    (if root_path == 0
        then some (minus_one, t)
        else open_on l t (disk_get r.drive_path) r.first mode)

  -- fread
  unfoldable pub fread : Vfs → ℕ → ℕ → ℕ → ℤ → ℤ × Vfs
  unfolding file_get_descriptor
  fread v ptr size nmemb fd =
      let desc = file_get_descriptor v fd in
      let d = v.descriptors desc in
      let (res, fat) = (functions d.filesystem).read_function v.fat d.private size nmemb ptr in
      if size == 0 || (nmemb == 0 || (lt_ℤ fd (pos 1) || desc == 0))
      then (minus_one, v)
      else (res, record v { fat = fat })

  -- fseek
  unfoldable pub fseek : Vfs → ℤ → ℤ → ℕ → ℤ × Vfs
  unfolding file_get_descriptor
  fseek v fd offset whence =
      let desc = file_get_descriptor v fd in
      let d = v.descriptors desc in
      let (res, fat) =
        (functions d.filesystem).seek_function v.fat d.private (word_value offset) whence in
      if desc == 0 then (minus_one, v) else (res, record v { fat = fat })

  -- fstat, with what `stat` points at
  unfoldable pub fstat : Vfs → ℤ → FileStat → ℤ × FileStat
  unfolding file_get_descriptor
  fstat v fd stat =
      let desc = file_get_descriptor v fd in
      let d = v.descriptors desc in
      if desc == 0
      then (minus_one, stat)
      else (functions d.filesystem).stat_function v.fat d.private stat
