-- ===== src/PathParser/Parts.antt =====
-- src/fs/path_parser.c: the parts of a path. The linked list of struct path_part, which is only
-- extended at its end, is the list of the addresses of its names; the structs are allocated all the
-- same, but not written to memory, so that a failed allocation of both a part and its name, at
-- address 0, leaves other bytes there than the code does. The loops that look for a slash or a zero
-- byte have fuel, and `none` where it runs out.
use simple_microkernel.Base.{
  ℕ, zero, suc, ◌==◌, if◌then◌else◌, ◌||◌, Option, some, none, ◌>>=◌, List, [], ◌∷◌, update, add32,
  ℤ,
}
use simple_microkernel.Memory.{Bytes}
use simple_microkernel.Kheap.{Heap, kfree, kzalloc}
use simple_microkernel.PathParser.{max_path, get_drive_by_path}

-- sizeof(struct path_part) and sizeof(struct path_root)
abbrev pub sizeof_part : ℕ
sizeof_part = 8

abbrev pub sizeof_root : ℕ
sizeof_root = 8

-- struct path_root
pub record PathRoot : Type 0 where
  pub drive_path : ℤ
  pub first : List ℕ

-- What the parser reads and writes: `*path`, the heap and the memory.
pub record Parser : Type 0 where
  pub path : ℕ
  pub heap : Heap
  pub memory : Bytes

-- kzalloc
abbrev pub allocate : Parser → ℕ → ℕ × Parser
allocate s size =
    let (address, h, m) = kzalloc s.heap s.memory size in
    (address, record s { heap = h; memory = m })

-- the loop of pathparser_get_path_part, with `i` after the call
unfoldable pub copy_part : ℕ → Parser → ℕ → ℕ → Option (ℕ × Parser)
copy_part zero s c_temp i = none
copy_part (suc fuel) s c_temp i =
    let copied = update s.memory (add32 c_temp i) (s.memory s.path) in
    let rest =
      copy_part fuel (record s { path = add32 s.path 1; memory = copied }) c_temp (suc i) in
    if s.memory s.path == 0x2f || s.memory s.path == 0 then some (i, s) else rest

-- the end of pathparser_get_path_part
unfoldable pub finish_part : ℕ → ℕ → ℕ × Parser → ℕ × ℕ × Parser
finish_part temp c_temp (i, s) =
    let m = update s.memory (add32 c_temp i) 0 in
    let path = if m s.path == 0x2f then add32 s.path 1 else s.path in
    let t = record s { path = path; memory = m } in
    if i == 0 then (0, 0, record t { heap = kfree t.heap temp }) else (temp, c_temp, t)

-- pathparser_get_path_part, with the address of the struct and that of its name
unfoldable pub get_path_part : ℕ → Parser → Option (ℕ × ℕ × Parser)
unfolding copy_part finish_part
get_path_part fuel s = do
  let (temp, t) = allocate s sizeof_part
  let (c_temp, u) = allocate t max_path
  copied ← copy_part fuel u c_temp 0
  some (finish_part temp c_temp copied)

-- pathparser_create_path_part, with as many parts as `rounds` at most
unfoldable pub create_path_part : ℕ → ℕ → Parser → Option (List ℕ × Parser)
unfolding get_path_part
create_path_part zero fuel s = none
create_path_part (suc rounds) fuel s = do
  (part, name, t) ← get_path_part fuel s
  (if part == 0
      then some ([], t)
      else (do (parts, u) ← create_path_part rounds fuel t; some (name ∷ parts, u)))

-- pathparser_create_path_root; a failed allocation is not noticed
unfoldable pub create_path_root : ℕ → Parser → ℕ × PathRoot × Parser
unfolding get_drive_by_path
create_path_root colon_slash s =
    let (root, t) = allocate s sizeof_root in
    let (drive, path) = get_drive_by_path t.memory colon_slash t.path in
    (root, record { drive_path = drive; first = [] }, record t { path = path })

-- Pathparser_parse
unfoldable pub pathparser_parse : ℕ → ℕ → ℕ → Parser → Option (ℕ × PathRoot × Parser)
unfolding create_path_root create_path_part
pathparser_parse rounds fuel colon_slash s = do
  let (root, r, t) = create_path_root colon_slash s
  (first, u) ← create_path_part rounds fuel t
  some (root, record r { first = first }, u)
