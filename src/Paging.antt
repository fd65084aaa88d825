-- ===== src/Paging.antt =====
-- src/memory/paging/paging.c: page directories of 1024 tables of 1024 entries. Memory is a function
-- from the address of a word to the uint32_t there; the directory and the tables lie in it.
pub mod Indexes
pub mod Entries
pub mod Ranges
pub mod Elsewhere
pub mod Table
pub mod Build
pub mod Identity
mod Tests
use simple_microkernel.Base.{
  ℕ, zero, suc, ◌+◌, ◌-◌, ◌*◌, ◌/◌, ◌%◌, bit_and, bit_or, Bool, true, false, ltb, ◌==◌, ◌||◌, not,
  if◌then◌else◌, update, array_loop, ℤ, pos, minus_one, is_negative, add32, sub32, mul32,
}
use simple_microkernel.Pmm.{Pmm, allocate_block, free_block}

-- PAGING_TOTAL_ENTRIES_PER_TABLE and PAGING_PAGE_SIZE
abbrev pub total_entries_per_table : ℕ
total_entries_per_table = 1024

abbrev pub page_size : ℕ
page_size = 4096

-- PTE_PRESENT, PTE_WRITEABLE and PTE_ACCESS_FROM_ALL
abbrev pub pte_present : ℕ
pte_present = 1

abbrev pub pte_writeable : ℕ
pte_writeable = 2

abbrev pub pte_access_from_all : ℕ
pte_access_from_all = 4

-- 4-byte words by their addresses
abbrev pub Words : Type 0
Words = ℕ → ℕ

-- `&base[i]` for a uint32_t pointer
abbrev pub entry_address : ℕ → ℕ → ℕ
entry_address base i = add32 base (mul32 4 i)

-- the table that an entry of a directory points at
abbrev pub table_of : ℕ → ℕ
table_of entry = bit_and entry 0xfffff000

-- paging_is_aligned
unfoldable pub is_aligned : ℕ → Bool
is_aligned addr = addr % page_size == 0

-- paging_get_indexes; the last two arguments are what the out parameters hold before the call
unfoldable pub get_indexes : ℕ → ℕ → ℕ → ℤ × ℕ × ℕ
unfolding is_aligned
get_indexes virtual_address directory_index table_index =
    if is_aligned virtual_address
    then (
      pos 0,
      virtual_address / (total_entries_per_table * page_size),
      virtual_address % (total_entries_per_table * page_size) / page_size,
    )
    else (minus_one, directory_index, table_index)

-- the word of the table that an index pair leads to
unfoldable pub entry_slot : Words → ℕ → ℕ → ℕ → ℕ
entry_slot m directory directory_index table_index =
    entry_address (table_of (m (entry_address directory directory_index))) table_index

-- paging_get, where the result of paging_get_indexes is not tested
unfoldable pub paging_get : Words → ℕ → ℕ → ℕ
unfolding get_indexes entry_slot
paging_get m directory virt =
    let (res, directory_index, table_index) = get_indexes virt 0 0 in
    m (entry_slot m directory directory_index table_index)

-- paging_set, after paging_get_indexes
unfoldable pub set_entry : Words → ℕ → ℕ → ℤ × ℕ × ℕ → ℤ × Words
unfolding entry_slot
set_entry m directory val (res, directory_index, table_index) =
    if is_negative res
    then (res, m)
    else (pos 1, update m (entry_slot m directory directory_index table_index) val)

-- paging_set
unfoldable pub paging_set : Words → ℕ → ℕ → ℕ → ℤ × Words
unfolding is_aligned get_indexes set_entry
paging_set m directory virt val =
    if not (is_aligned virt)
    then (minus_one, m)
    else set_entry m directory val (get_indexes virt 0 0)

-- paging_align_address
unfoldable pub align_address : ℕ → ℕ
align_address ptr =
    if ptr % page_size == 0 then ptr else sub32 (add32 ptr page_size) (ptr % page_size)

-- paging_map
unfoldable pub paging_map : Words → ℕ → ℕ → ℕ → ℕ → ℤ × Words
paging_map m directory virtual_addr phy_addr flags =
    if not (virtual_addr % page_size == 0) || not (phy_addr % page_size == 0)
    then (minus_one, m)
    else paging_set m directory virtual_addr (bit_or phy_addr flags)

-- paging_map_range; the last argument is the number of pages left
unfoldable pub map_range : Words → ℕ → ℕ → ℕ → ℕ → ℕ → ℤ × Words
map_range m directory virtual_addr phy_addr flags zero = (pos 1, m)
map_range m directory virtual_addr phy_addr flags (suc total_pages) =
    let r = paging_map m directory virtual_addr phy_addr flags in
    let rest =
      map_range r.1 directory (add32 virtual_addr page_size) (add32 phy_addr page_size) flags
        total_pages in
    if is_negative r.0 then (minus_one, r.1) else rest

-- paging_map_to
unfoldable pub map_to : Words → ℕ → ℕ → ℕ → ℕ → ℕ → ℤ × Words
map_to m directory virtual_addr phy_addr phy_addr_end flags =
    if not (virtual_addr % page_size == 0)
    then (minus_one, m)
    else (if not (phy_addr % page_size == 0)
        then (minus_one, m)
        else (if not (phy_addr_end % page_size == 0)
            then (minus_one, m)
            else (if ltb phy_addr_end phy_addr
                then (minus_one, m)
                else map_range m directory virtual_addr phy_addr flags
                    (sub32 phy_addr_end phy_addr / page_size))))

-- The statics of paging.c and the memory that they rule.
pub record Paging : Type 0 where
  pub pmm : Pmm
  pub memory : Words
  pub current_directory : ℕ
  pub for_one_time : ℕ

-- the inner loop of paging_new_4gb fills the table at `entry`
unfoldable pub fill_table : ℕ → ℕ → ℕ → Words → Words
fill_table entry offset flags m =
    array_loop
      (λ b m. update m (entry_address entry b) (bit_or (add32 offset (mul32 b page_size)) flags)) 0
      total_entries_per_table m

-- one round of the outer loop, once a block has been found for the table
unfoldable pub add_table : ℕ → ℕ → ℕ → ℕ → ℕ → Words → Words
unfolding fill_table
add_table directory i entry offset flags m =
    update (fill_table entry offset flags m) (entry_address directory i)
      (bit_or (bit_or entry flags) pte_writeable)

-- the outer loop at `i`, with `rounds` tables left; false if a block could not be allocated
unfoldable pub add_tables : ℕ → ℕ → Pmm → Words → ℕ → ℕ → ℕ → Bool × Pmm × Words
add_tables directory flags p m i offset zero = (true, p, m)
add_tables directory flags p m i offset (suc rounds) =
    let (entry, q) = allocate_block p in
    let rest =
      add_tables directory flags q (add_table directory i entry offset flags m) (suc i)
        (add32 offset (mul32 total_entries_per_table page_size)) rounds in
    if entry == 0 then (false, q, m) else rest

-- the end of paging_new_4gb: the block that holds the struct paging_4gb_chunk
unfoldable pub new_chunk : Paging → ℕ → Bool × Pmm × Words → ℕ × Paging
new_chunk s directory (false, p, m) = (0, record s { pmm = p; memory = m })
new_chunk s directory (true, p, m) =
    let (chunk, q) = allocate_block p in
    (
      chunk,
      record s {
        pmm = q;
        memory = update m chunk directory;
        for_one_time = sub32 s.for_one_time 1;
      },
    )

-- paging_new_4gb: the address of the chunk, or 0
unfoldable pub new_4gb : Paging → ℕ → ℕ × Paging
unfolding new_chunk
new_4gb s flags =
    let (directory, p) = allocate_block s.pmm in
    if directory == 0
    then (0, record s { pmm = p })
    else new_chunk s directory (add_tables directory flags p s.memory 0 0 total_entries_per_table)

-- paging_switch, less the load of the directory into cr3
unfoldable pub switch : Paging → ℕ → Paging
switch s directory = record s { current_directory = directory }

-- paging_get_current_directory
abbrev pub get_current_directory : Paging → ℕ
get_current_directory s = s.current_directory

-- paging_4gb_chunk_get_directory
abbrev pub chunk_get_directory : Paging → ℕ → ℕ
chunk_get_directory s chunk = s.memory chunk

-- paging_free_4gb
unfoldable pub free_4gb : Paging → ℕ → Paging
free_4gb s chunk =
    let directory = s.memory chunk in
    let p =
      array_loop (λ i p. free_block p (table_of (s.memory (entry_address directory i)))) 0 1024
        s.pmm in
    record s { pmm = free_block (free_block p directory) chunk }
