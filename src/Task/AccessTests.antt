-- ===== src/Task/AccessTests.antt =====
-- The theorem of copy_string_from_task at a concrete task.
use simple_microkernel.Base.{
  ℕ, ◌+◌, ◌-◌, ◌*◌, ◌/◌, ◌<◌, ◌≡◌, ◌∙◌, refl, sym, ◌==◌, if◌then◌else◌, ltb, leb, ◌&&◌, ◌||◌, arith,
}
use simple_microkernel.Memory.{Bytes}
use simple_microkernel.Pmm.{allocate_block, get_first_free_block, first_free_from, memory_map_test}
use simple_microkernel.Kheap.{Heap, empty_slot, kmallac, kzalloc}
use simple_microkernel.Paging.{Words}
use simple_microkernel.Paging.Entries.{IsDirectory}
use simple_microkernel.Task.{System, initial_task}
use simple_microkernel.Task.Access.{copy_string_from_task}
use simple_microkernel.Task.Restore.{Restored, copy_string_from_task-Restored}

-- a page directory at 1 MB, whose tables lie behind it, and two structs that point at it
abbrev words : Words
words a =
    if a == 0x900000 || a == 0x900004
    then 0x100000
    else (if leb 0x100000 a && ltb a 0x101000 then 0x101000 + (a - 0x100000) / 4 * 4096 else 0)

-- block 0 is used
abbrev heap : Heap
heap = record {
  pmm = record {
    memory_map = λ w. if w == 0 then 1 else 0;
    used_blocks = 1;
    free_blocks = 9;
    system_memory_size = 10;
  };
  big_blocks = λ i. empty_slot;
}

abbrev running : System
running = record {
  heap = heap;
  memory = words;
  current_directory = 0x100000;
  for_one_time = 1;
  tasks = record {
    store = λ a. initial_task 0x900000 0x5000;
    current_task = 0x6000;
    task_tail = 0x6000;
    task_head = 0x6000;
  };
}

abbrev no_bytes : Bytes
no_bytes a = 0

a_block : (kzalloc heap no_bytes 512).0 ≡ 4096
unfolding kzalloc kmallac allocate_block get_first_free_block first_free_from memory_map_test
a_block = refl

entry : (i : ℕ) → i < 1024 → words (0x100000 + 4 * i) ≡ 0x101000 + i * 4096
entry i h = ground arith

words-IsDirectory : IsDirectory words 0x100000
words-IsDirectory = record {
  aligned = refl;
  fits = omega arith;
  word = λ i h. omega (arith, entry i h);
  apart = λ i h. omega (arith, entry i h);
  distinct = λ i j h k e. omega (arith, entry i h, entry j k);
}

copy_string_from_task-Restored_example :
    Restored running 0x900004 0x100000
      (kzalloc heap no_bytes 512).1
      (copy_string_from_task 0x900004 running no_bytes 0x6000 0x400000 0x7000 512)
copy_string_from_task-Restored_example =
    copy_string_from_task-Restored 0x900004 running no_bytes 0x6000 0x400000 0x7000 512
      words-IsDirectory (λ i h. omega (arith, entry i h)) (omega arith)
      (λ e. let x : 4096 ≡ 0 = sym a_block ∙ e in absurd (omega arith)) (rw a_block refl)
      (rw a_block (omega arith))
