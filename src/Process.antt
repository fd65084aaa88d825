-- ===== src/Process.antt =====
-- src/task/process.c: programs that are loaded from files, with the memory and the task of each. A
-- struct process is a record in a store, except for its name, which lies in memory. The kernel's
-- bytes and the words of the page tables are two memories. `none` where the fuel of fopen runs out.
pub mod Load
pub mod Table
pub mod Mapping
mod Tests
use simple_microkernel.Base.{
  ℕ, zero, suc, ◌+◌, ◌*◌, ◌/◌, ◌==◌, if◌then◌else◌, not, ◌||◌, Option, some, none, ◌>>=◌, update,
  add32, bit_or, ℤ, pos, pos_part, minus_one, not_positive, is_negative, lt_ℤ,
}
use simple_microkernel.Memory.{memset}
use simple_microkernel.String.{strncpy}
use simple_microkernel.Kheap.{Heap, kzalloc}
use simple_microkernel.Paging.{
  Words, map_to, align_address, pte_present, pte_writeable, pte_access_from_all,
}
use simple_microkernel.Task.{Tasks, System, task_new, program_virtual_address, clear_words}
use simple_microkernel.FatFile.{FatState, FileStat}
use simple_microkernel.Vfs.{Filesystem, Vfs, Literals, free_from}
use simple_microkernel.Vfs.Files.{fopen, fread, fstat}

-- MAX_PROCESSES, USER_PROGRAM_STACK_SIZE and PROGRAM_VIRTUAL_STACK_ADDRESS_END
abbrev pub max_processes : ℕ
max_processes = 12

abbrev pub user_program_stack_size : ℕ
user_program_stack_size = 1024 * 16

abbrev pub program_virtual_stack_address_end : ℕ
program_virtual_stack_address_end = 0x3fb000

-- sizeof(struct process), the place of its name and the name's size
abbrev pub sizeof_process : ℕ
sizeof_process = 4224

abbrev pub filename_offset : ℕ
filename_offset = 2

abbrev pub sizeof_filename : ℕ
sizeof_filename = 108

-- struct process, without its name and the allocations, which no function uses
pub record Process : Type 0 where
  pub id : ℕ
  pub task : ℕ
  pub ptr : ℕ
  pub stack : ℕ
  pub size : ℕ

abbrev pub zero_process : Process
zero_process = record { id = 0; task = 0; ptr = 0; stack = 0; size = 0 }

-- The table of processes, the structs at their addresses, and what lies below; the heap is the one
-- of the files.
pub record Processes : Type 0 where
  pub processes : ℕ → ℕ
  pub store : ℕ → Process
  pub vfs : Vfs
  pub words : Words
  pub current_directory : ℕ
  pub for_one_time : ℕ
  pub tasks : Tasks

-- what task.c sees, and the state after a call of it
abbrev pub system_of : Processes → System
system_of s = record {
  heap = s.vfs.fat.heap;
  memory = s.words;
  current_directory = s.current_directory;
  for_one_time = s.for_one_time;
  tasks = s.tasks;
}

abbrev pub with_system : Processes → System → Processes
with_system s t = record s {
  vfs = record s.vfs { fat = record s.vfs.fat { heap = t.heap } };
  words = t.memory;
  current_directory = t.current_directory;
  for_one_time = t.for_one_time;
  tasks = t.tasks;
}

-- kzalloc
abbrev pub allocate : Processes → ℕ → ℕ × Processes
allocate s size =
    let (address, h, m) = kzalloc s.vfs.fat.heap s.vfs.fat.memory size in
    (address, record s { vfs = record s.vfs { fat = record s.vfs.fat { heap = h; memory = m } } })

-- `process->field = …`
abbrev pub write_process : Processes → ℕ → Process → Processes
write_process s process v = record s { store = update s.store process v }

-- process_init
unfoldable pub process_init : Processes → ℕ → Processes
process_init s process =
    let m = memset s.vfs.fat.memory process 0 sizeof_process in
    record s {
      store = update s.store process zero_process;
      vfs = record s.vfs { fat = record s.vfs.fat { memory = m } };
    }

-- process_get
unfoldable pub process_get : Processes → ℤ → ℕ
process_get s process_id =
    if is_negative process_id || not (lt_ℤ process_id (pos max_processes))
    then 0
    else s.processes (pos_part process_id)

-- process_get_free_slot
unfoldable pub process_get_free_slot : Processes → Option ℕ
process_get_free_slot s = free_from s.processes max_processes 0

-- the flags of a process's pages
abbrev pub page_flags : ℕ
page_flags = bit_or (bit_or pte_present pte_access_from_all) pte_writeable

-- the page directory of a process's task
abbrev pub directory_of : Processes → ℕ → ℕ
directory_of s process = s.words (s.tasks.store (s.store process).task).page_directory

-- the call of paging_map_to for the stack, which process_map_binary and process_map_memory both make
abbrev pub map_stack : Processes → ℕ → Processes
map_stack s process =
    let stack = (s.store process).stack in
    record s {
      words =
          (map_to s.words (directory_of s process) program_virtual_stack_address_end stack
            (align_address (add32 stack user_program_stack_size)) page_flags).1;
    }

-- process_map_binary: the results of paging_map_to are not looked at
unfoldable pub process_map_binary : Processes → ℕ → ℤ × Processes
process_map_binary s process =
    let p = s.store process in
    let mapped =
      (map_to s.words (directory_of s process) program_virtual_address p.ptr
        (align_address (add32 p.ptr p.size)) page_flags).1 in
    (pos 0, map_stack (record s { words = mapped }) process)

-- process_map_memory
unfoldable pub process_map_memory : Processes → ℕ → ℤ × Processes
unfolding process_map_binary
process_map_memory s process =
    let (res, t) = process_map_binary s process in (res, map_stack t process)

-- the fields of a process whose stack is at `stack`
abbrev pub name_process : Processes → ℕ → ℕ → ℕ → ℕ → Processes
name_process s filename process slot stack =
    let m =
      strncpy s.vfs.fat.memory (add32 process filename_offset) filename (pos sizeof_filename) in
    write_process (record s { vfs = record s.vfs { fat = record s.vfs.fat { memory = m } } })
      process (record (s.store process) { stack = stack; id = slot })

-- the end of process_load_for_slot, once the task is there
unfoldable pub insert_process : Processes → ℕ → ℕ → ℕ → ℤ × Processes
unfolding process_map_memory
insert_process s process slot task =
    let tasked = write_process s process (record (s.store process) { task = task }) in
    let (res, mapped) = process_map_memory tasked process in
    if is_negative res
    then (minus_one, mapped)
    else (pos 1, record mapped { processes = update mapped.processes slot process })

-- the same, once the program lies in memory
unfoldable pub finish_load : Processes → ℕ → ℕ → ℕ → ℤ × Processes
unfolding insert_process
finish_load s filename process slot =
    let (stack, t) = allocate s user_program_stack_size in
    let named = name_process t filename process slot stack in
    let (task, sys) = task_new (system_of named) process in
    let u = with_system named sys in
    if stack == 0
    then (minus_one, t)
    else (if task == 0 then (minus_one, u) else insert_process u process slot task)
