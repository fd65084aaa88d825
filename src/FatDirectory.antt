-- ===== src/FatDirectory.antt =====
-- src/fs/fat16/fat16.c: the search for a path in the directories, and fat16_open. The path's parts
-- are the addresses of their names, one behind the other. `none` where the fuel runs out that the
-- loops over names and directories have. What the code prints is left out.
mod Tests
use simple_microkernel.Base.{
  ℕ, zero, suc, ◌+◌, ◌*◌, ◌==◌, if◌then◌else◌, not, ltb, Option, some, none, ◌>>=◌, List, [], ◌∷◌,
  update, add32, mul32, bit_and, ℤ, pos, pos_part, word_value, int_value, is_negative,
}
use simple_microkernel.Memory.{Bytes, memcpy}
use simple_microkernel.String.{strlen, istrncmp}
use simple_microkernel.Kheap.{Heap, kfree, kzalloc}
use simple_microkernel.PathParser.{is_zero}
use simple_microkernel.Fat16.{Fat16Directory, sizeof_item, cluster_to_sector, read_internal}
use simple_microkernel.FatFile.{
  FatItem, FatFileDescriptor, FatState, item_attribute, file_subdirectory, item_type_directory,
  item_type_file, get_first_cluster,
}
use simple_microkernel.FatNames.{get_relative_path_name}
use simple_microkernel.FatVolume.{zero_directory, get_total_items}

-- MAX_PATH_NAME, FILE_MODE_READ and the sizes of the structs
abbrev pub max_path_name : ℕ
max_path_name = 108

abbrev pub file_mode_read : ℕ
file_mode_read = 0

abbrev pub sizeof_directory : ℕ
sizeof_directory = 16

abbrev pub sizeof_fat_item : ℕ
sizeof_fat_item = 8

abbrev pub sizeof_descriptor : ℕ
sizeof_descriptor = 8

-- kzalloc of a struct or of a directory's items
abbrev pub allocate : FatState → ℕ → ℕ × FatState
allocate s size =
    let (address, h, m) = kzalloc s.heap s.memory size in
    (address, record s { heap = h; memory = m })

-- fat16_free_directory
unfoldable pub free_directory : FatState → ℕ → FatState
free_directory s directory =
    let item = (s.directories directory).item in
    let h = if item == 0 then s.heap else kfree s.heap item in
    if directory == 0 then s else record s { heap = kfree h directory }

-- fat16_fat_item_free
unfoldable pub fat_item_free : FatState → ℕ → FatState
unfolding free_directory
fat_item_free s item =
    let i = s.items item in
    let t =
      if i.item_type == item_type_directory
      then free_directory s i.item
      else (if i.item_type == item_type_file then record s { heap = kfree s.heap i.item } else s) in
    record t { heap = kfree t.heap item }

-- `directory->field = …`
abbrev pub write_directory : FatState → ℕ → Fat16Directory → FatState
write_directory s directory v = record s { directories = update s.directories directory v }

-- fat16_clone_directory_item
unfoldable pub clone_directory_item : FatState → ℕ → ℕ → ℕ × FatState
clone_directory_item s item size =
    let (item_copy, t) = allocate s size in
    if ltb size sizeof_item
    then (0, s)
    else (if item_copy == 0
        then (0, t)
        else (item_copy, record t { memory = memcpy t.memory item_copy item size }))

module _ (drive : ℕ → ℕ → ℕ) (stack : Bytes) where
  -- the read of a directory's items, which have been counted
  unfoldable pub read_directory : FatState → ℕ → ℕ → ℤ → ℕ × FatState
  unfolding free_directory
  read_directory s directory cluster total_items =
      let directory_size = mul32 (word_value total_items) sizeof_item in
      let counted = record zero_directory { total_entries = total_items } in
      let (item, t) = allocate s directory_size in
      let u = write_directory t directory (record counted { item = item }) in
      let (res, p, m) =
        read_internal drive stack u.disk u.volume cluster 0x00 directory_size u.memory item in
      let read = record u { volume = p; memory = m } in
      if item == 0
      then (0, u)
      else (if is_negative res then (0, free_directory read directory) else (directory, read))

  -- fat16_load_directory
  unfoldable pub load_directory : ℕ → FatState → ℕ → Option (ℕ × FatState)
  unfolding read_directory get_first_cluster
  load_directory fuel s dir_item =
      let (directory, t) = allocate s sizeof_directory in
      let cluster = get_first_cluster t.memory dir_item in
      if bit_and (item_attribute s.memory dir_item) file_subdirectory == 0
      then some (0, s)
      else (if directory == 0 then some (0, t) else (do
        (total_items, p) ←
            get_total_items drive stack fuel t.disk t.volume (cluster_to_sector t.volume cluster)
        some (read_directory (record t { volume = p }) directory cluster total_items)))

  -- fat16_new_fat_item_directory_item
  unfoldable pub new_fat_item : ℕ → FatState → ℕ → Option (ℕ × FatState)
  unfolding load_directory clone_directory_item
  new_fat_item fuel s item =
      let (f_item, t) = allocate s sizeof_fat_item in
      if f_item == 0
      then some (0, t)
      else (if bit_and (item_attribute t.memory item) file_subdirectory == 0
          then (let (copy, u) = clone_directory_item t item sizeof_item in
              let v : FatItem = record { item = copy; item_type = item_type_file } in
              some (f_item, record u { items = update u.items f_item v }))
          else (do
            (directory, u) ← load_directory fuel t item
            let v : FatItem = record { item = directory; item_type = item_type_directory }
            some (f_item, record u { items = update u.items f_item v })))

  -- the loop of fat16_find_item_in_directory from item `i` on, with the rounds that it has left; the
  -- local array lies at `tmp_filename`
  unfoldable pub find_from :
      ℕ → ℕ → FatState → ℕ → Fat16Directory → ℕ → ℕ → ℕ → Option (ℕ × FatState)
  unfolding new_fat_item
  find_from zero fuel s tmp_filename directory name i f_item = some (f_item, s)
  find_from (suc rounds) fuel s tmp_filename directory name i f_item = do
    let item = add32 directory.item (mul32 sizeof_item i)
    m ← get_relative_path_name fuel s.memory item tmp_filename max_path_name
    length ← strlen fuel m name
    let t = record s { memory = m }
    (found, u) ←
        if is_zero (istrncmp m tmp_filename name length)
        then new_fat_item fuel t item
        else some (f_item, t)
    find_from rounds fuel u tmp_filename directory name (suc i) found

  -- fat16_find_item_in_directory
  unfoldable pub find_item_in_directory :
      ℕ → FatState → ℕ → Fat16Directory → ℕ → Option (ℕ × FatState)
  unfolding find_from
  find_item_in_directory fuel s tmp_filename directory name =
      find_from (pos_part directory.total_entries) fuel s tmp_filename directory name 0 0

  -- the loop of fat16_get_directory_entry over the parts that are left
  unfoldable pub walk_parts : ℕ → FatState → ℕ → ℕ → List ℕ → Option (ℕ × FatState)
  unfolding find_item_in_directory fat_item_free
  walk_parts fuel s tmp_filename current_item [] = some (current_item, s)
  walk_parts fuel s tmp_filename current_item (next ∷ parts) =
      let i = s.items current_item in
      if not (i.item_type == item_type_directory) then some (0, s) else (do
        (tmp_item, t) ← find_item_in_directory fuel s tmp_filename (s.directories i.item) next
        walk_parts fuel (fat_item_free t current_item) tmp_filename tmp_item parts)

  -- fat16_get_directory_entry, of a path with a first part
  unfoldable pub get_directory_entry : ℕ → FatState → ℕ → ℕ → List ℕ → Option (ℕ × FatState)
  unfolding walk_parts
  get_directory_entry fuel s tmp_filename part parts = do
    (root_item, t) ← find_item_in_directory fuel s tmp_filename s.volume.root_directory part
    (if root_item == 0 then some (0, t) else walk_parts fuel t tmp_filename root_item parts)

  -- fat16_open: the path is searched twice
  unfoldable pub fat16_open : ℕ → FatState → ℕ → ℕ → List ℕ → ℕ → Option (ℕ × FatState)
  unfolding get_directory_entry
  fat16_open fuel s tmp_filename part parts mode =
      let (descriptor, t) = allocate s sizeof_descriptor in
      if not (mode == file_mode_read)
      then some (0, s)
      else (if descriptor == 0 then some (0, t) else (do
        (f_item, u) ← get_directory_entry fuel t tmp_filename part parts
        (item, v) ← get_directory_entry fuel u tmp_filename part parts
        let d : FatFileDescriptor = record { item = item; pos = 0 }
        let opened = record v { descriptors = update v.descriptors descriptor d }
        some (if item == 0 then 0 else descriptor, opened)))
