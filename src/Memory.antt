-- ===== src/Memory.antt =====
-- src/memory/memory.c: fill, compare and copy. Memory is a function from the 32-bit address to the
-- byte there, and a function that writes returns the new memory; the pointer that the C functions
-- return is their first argument.
pub mod Fill
pub mod Copy
pub mod Compare
mod Tests
use simple_microkernel.Base.{
  ℕ, zero, suc, ◌+◌, ◌%◌, ◌==◌, if◌then◌else◌, update, array_loop, add32, ℤ, pos, minus_one, lt_ℤ,
  char_value,
}

abbrev pub Bytes : Type 0
Bytes = ℕ → ℕ

-- memset; `(char)c` keeps the low byte of `c`
unfoldable pub memset : Bytes → ℕ → ℕ → ℕ → Bytes
memset m ptr c size = array_loop (λ i m. update m (add32 ptr i) (c % 256)) 0 size m

-- the loop of memcmp; the bytes are compared as signed chars
unfoldable pub memcmp_from : Bytes → ℕ → ℕ → ℕ → ℤ
memcmp_from m s1 s2 zero = pos 0
memcmp_from m s1 s2 (suc rounds) =
    let rest = memcmp_from m (add32 s1 1) (add32 s2 1) rounds in
    if m s1 == m s2
    then rest
    else (if lt_ℤ (char_value (m s1)) (char_value (m s2)) then minus_one else pos 1)

-- memcmp
unfoldable pub memcmp : Bytes → ℕ → ℕ → ℕ → ℤ
unfolding memcmp_from
memcmp m s1 s2 count = memcmp_from m s1 s2 count

-- memcpy: upwards, so that an overlap counts
unfoldable pub memcpy : Bytes → ℕ → ℕ → ℕ → Bytes
memcpy m des src count = array_loop (λ i m. update m (add32 des i) (m (add32 src i))) 0 count m
