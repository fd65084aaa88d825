-- ===== src/Gdt/Tests.antt =====
-- The theorems of gdt.c for segments of the kernel's table.
use simple_microkernel.Base.{◌%◌, ◌<◌, ◌≡◌, ◌≢◌, ◌⊎◌, some, none, arith}
use simple_microkernel.Gdt.{GdtStructured, Descriptor, encode_gdt_entry}
use simple_microkernel.Gdt.Encode.{Encodable, Encodes, encode_gdt_entry-Encodes}

-- the kernel's code segment
abbrev kernel_code : GdtStructured
kernel_code = record { base = 0; limit = 0xffffffff; type = 0x9a }

abbrev empty : Descriptor
empty i = 0

encode_gdt_entry-Encodes_example :
    (Encodable kernel_code
      × ((d : Descriptor) × (encode_gdt_entry empty kernel_code ≡ some d) × Encodes kernel_code d))
    ⊎ ((65536 < 0xffffffff)
        × (0xffffffff % 4096 ≢ 4095)
        × (encode_gdt_entry empty kernel_code ≡ none))
encode_gdt_entry-Encodes_example =
    encode_gdt_entry-Encodes empty kernel_code (omega arith) (omega arith)
