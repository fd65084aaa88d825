-- ===== src/Paging/Tests.antt =====
-- The theorems of paging.c at a concrete directory, and tests.
use simple_microkernel.Base.{◌+◌, ◌-◌, ◌*◌, ◌/◌, ◌≡◌, refl, ◌==◌, if◌then◌else◌, pos, update, arith}
use simple_microkernel.Pmm.{memory_map_test}
use simple_microkernel.Pmm.Valid.{IsValid}
use simple_microkernel.Pmm.Count.{count_free}
use simple_microkernel.Paging.{Words, Paging, paging_get, paging_set, paging_map, new_4gb}
use simple_microkernel.Paging.Entries.{IsDirectory, paging_get-paging_set}
use simple_microkernel.Paging.Identity.{MapsItself, new_4gb-MapsItself}

-- a directory at 4096, with its tables in the pages from the second on
abbrev memory : Words
memory a = (a - 4096) / 4 * 4096 + 8192

memory-IsDirectory : IsDirectory memory 4096
memory-IsDirectory = record {
  aligned = refl;
  fits = omega arith;
  word = λ i h. omega arith;
  apart = λ i h. omega arith;
  distinct = λ i j h k e. omega arith;
}

-- 2000 blocks, of which only the first is used
abbrev roomy : Paging
roomy = record {
  pmm = record {
    memory_map = λ w. if w == 0 then 1 else 0;
    used_blocks = 1;
    free_blocks = 1999;
    system_memory_size = 2000;
  };
  memory = λ a. 0;
  current_directory = 0;
  for_one_time = 1;
}

roomy-IsValid : IsValid roomy.pmm
unfolding memory_map_test count_free
roomy-IsValid = record { in_4gb = omega arith; split = refl; counted = refl; reserved = refl }

mapped_page : paging_get (paging_map memory 4096 0x400000 0x9000 7).1 4096 0x400000 ≡ 0x9007
unfolding paging_get paging_map paging_set update
mapped_page = refl

paging_get-paging_set_example :
    let (res, m) = paging_set memory 4096 0x400000 7 in
    (res ≡ pos 1)
    × IsDirectory m 4096
    × (paging_get m 4096 0x5000 ≡ (if 0x5000 == 0x400000 then 7 else paging_get memory 4096 0x5000))
paging_get-paging_set_example =
    paging_get-paging_set 0x400000 7 0x5000 memory-IsDirectory refl (omega arith) refl (omega arith)

new_4gb-MapsItself_example : MapsItself roomy 7 (new_4gb roomy 7)
new_4gb-MapsItself_example = new_4gb-MapsItself roomy 7 roomy-IsValid (omega arith) (omega arith)
