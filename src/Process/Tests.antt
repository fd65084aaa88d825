-- ===== src/Process/Tests.antt =====
-- The theorems of processes at concrete states.
use simple_microkernel.Base.{
  ℕ, ◌+◌, ◌-◌, ◌*◌, ◌/◌, ◌<◌, ◌≡◌, refl, ◌==◌, if◌then◌else◌, ltb, leb, ◌&&◌, pos, arith,
}
use simple_microkernel.Paging.{Words}
use simple_microkernel.Paging.Entries.{IsDirectory}
use simple_microkernel.Task.{initial_task}
use simple_microkernel.FatFile.Example.{opened}
use simple_microkernel.Process.{Processes, process_map_memory}
use simple_microkernel.Process.Mapping.{ProcessMapped, process_map_memory-ProcessMapped}

-- a page directory at 4096, whose tables lie behind it, and the struct that points at it
abbrev words : Words
words a =
    if a == 0x900000
    then 4096
    else (if leb 4096 a && ltb a 8192 then 8192 + (a - 4096) / 4 * 4096 else 0)

-- a process at 0x5000, with task 0x6000
abbrev loading : Processes
loading = record {
  processes = λ i. 0;
  store = λ a. record { id = 0; task = 0x6000; ptr = 0xa00000; stack = 0xb00000; size = 5000 };
  vfs = record {
    fat = opened;
    filesystems = λ i. 0;
    file_descriptors = λ i. 0;
    descriptors = λ a. record { index = 0; filesystem = 0; private = 0; disk = 0 };
  };
  words = words;
  current_directory = 4096;
  for_one_time = 1;
  tasks = record {
    store = λ a. initial_task 0x900000 0x5000;
    current_task = 0x6000;
    task_tail = 0x6000;
    task_head = 0x6000;
  };
}

entry : (i : ℕ) → i < 1024 → words (4096 + 4 * i) ≡ 8192 + i * 4096
entry i h = ground arith

words-IsDirectory : IsDirectory words 4096
words-IsDirectory = record {
  aligned = refl;
  fits = omega arith;
  word = λ i h. omega (arith, entry i h);
  apart = λ i h. omega (arith, entry i h);
  distinct = λ i j h k e. omega (arith, entry i h, entry j k);
}

process_map_memory-ProcessMapped_example :
    (m : Words) × (process_map_memory loading 0x5000 ≡ (pos 0, record loading { words = m }))
    × ProcessMapped words 4096 0xa00000 5000 0xb00000 m
process_map_memory-ProcessMapped_example =
    process_map_memory-ProcessMapped loading 0x5000 words-IsDirectory
      (λ i h. omega (arith, entry i h)) refl refl (omega arith) (omega arith) (omega arith)
