-- ===== src/Paging/Indexes.antt =====
-- How paging.c takes an address apart.
use simple_microkernel.Base.{
  ℕ, ◌+◌, ◌*◌, ◌/◌, ◌%◌, ◌^◌, ◌≤◌, ◌<◌, ◌≡◌, ◌≢◌, eq→==, ne→==, pos, minus_one, arith,
}
use simple_microkernel.Paging.{get_indexes, align_address, page_size}

-- the indexes of an address
abbrev pub directory_index : ℕ → ℕ
directory_index v = v / 4194304

abbrev pub table_index : ℕ → ℕ
table_index v = v % 4194304 / 4096

-- paging_get_indexes of an aligned address returns 0 and two indexes below 1024 that determine the
-- address.
pub get_indexes-aligned :
    (v a b : ℕ)
    → v % 4096 ≡ 0
    → v < 2 ^ 32
    → (get_indexes v a b ≡ (pos 0, directory_index v, table_index v))
      × (directory_index v < 1024)
      × (table_index v < 1024)
      × ((directory_index v * 1024 + table_index v) * 4096 ≡ v)
unfolding get_indexes
get_indexes-aligned v a b h u = (rw (eq→== (v % 4096) 0 h), omega arith, omega arith, omega arith)

-- paging_get_indexes of any other address returns -1 and leaves the out parameters alone.
pub get_indexes-unaligned : (v a b : ℕ) → v % 4096 ≢ 0 → get_indexes v a b ≡ (minus_one, a, b)
unfolding get_indexes
get_indexes-unaligned v a b h = rw (ne→== (v % 4096) 0 h)

-- paging_align_address returns the first multiple of 4096 that is not below the address, if that
-- does not wrap.
pub align_address_lem :
    (ptr : ℕ)
    → ptr + 4095 < 2 ^ 32
    → (align_address ptr % page_size ≡ 0)
      × (ptr ≤ align_address ptr)
      × (align_address ptr < ptr + page_size)
unfolding align_address
align_address_lem ptr h = ground arith
