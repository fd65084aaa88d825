-- ===== src/Memory/Tests.antt =====
-- A test of memory.c.
use simple_microkernel.Base.{◌%◌, ◌≡◌, refl, minus_one}
use simple_microkernel.Memory.{Bytes, memcmp, memcmp_from}

-- every address holds its own low byte
abbrev ramp : Bytes
ramp a = a % 256

-- 0x80 is negative as a signed char
signed_bytes : memcmp ramp 128 5 2 ≡ minus_one
unfolding memcmp memcmp_from
signed_bytes = refl
