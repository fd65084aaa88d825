-- ===== src/Task.antt =====
-- src/task/task.c: the tasks of the kernel, a doubly linked list through the `next` and `prev`
-- pointers of their structs. A struct task is a record in a store, found by its address. task_switch
-- is modelled by the directory that it makes current, and task_return of src/task/task.asm by the
-- registers with which the task goes on.
pub mod List
pub mod New
pub mod RoundRobin
pub mod Start
pub mod Return
pub mod Remove
pub mod Access
pub mod Restore
mod Tests
mod AccessTests
use simple_microkernel.Base.{
  ℕ, zero, suc, ◌+◌, ◌-◌, ◌*◌, Bool, true, false, Option, some, none, ◌==◌, if◌then◌else◌, update,
  ℤ, ◌/◌, array_loop, add32, pos, minus_one, bit_or,
}
use simple_microkernel.Pmm.{Pmm}
use simple_microkernel.Kheap.{Heap, kmallac, kfree}
use simple_microkernel.Paging.{
  Words, Paging, get_current_directory, new_4gb, free_4gb, pte_present, pte_access_from_all,
}

-- struct registers
pub record Registers : Type 0 where
  pub edi : ℕ
  pub esi : ℕ
  pub ebp : ℕ
  pub ebx : ℕ
  pub edx : ℕ
  pub ecx : ℕ
  pub eax : ℕ
  pub ip : ℕ
  pub cs : ℕ
  pub flags : ℕ
  pub esp : ℕ
  pub ss : ℕ

-- struct interrupt_frame
pub record InterruptFrame : Type 0 where
  pub edi : ℕ
  pub esi : ℕ
  pub ebp : ℕ
  pub reserved : ℕ
  pub ebx : ℕ
  pub edx : ℕ
  pub ecx : ℕ
  pub eax : ℕ
  pub ip : ℕ
  pub cs : ℕ
  pub flags : ℕ
  pub esp : ℕ
  pub ss : ℕ

-- What task_return finds in the processor at its entry: the kernel's stack pointer and flags.
pub record Cpu : Type 0 where
  pub esp : ℕ
  pub flags : ℕ

-- struct task; a pointer is an address, 0 for none
pub record Task : Type 0 where
  pub page_directory : ℕ
  pub registers : Registers
  pub process : ℕ
  pub next : ℕ
  pub prev : ℕ

-- sizeof(struct task)
abbrev pub sizeof_task : ℕ
sizeof_task = 64

-- the bytes of a struct after memset(task, 0, sizeof(struct task))
abbrev pub zero_registers : Registers
zero_registers = record {
  edi = 0;
  esi = 0;
  ebp = 0;
  ebx = 0;
  edx = 0;
  ecx = 0;
  eax = 0;
  ip = 0;
  cs = 0;
  flags = 0;
  esp = 0;
  ss = 0;
}

abbrev pub zero_task : Task
zero_task = record {
  page_directory = 0;
  registers = zero_registers;
  process = 0;
  next = 0;
  prev = 0;
}

-- PROGRAM_VIRTUAL_ADDRESS, PROGRAM_VIRTUAL_STACK_ADDRESS_START and the user's segments
abbrev pub program_virtual_address : ℕ
program_virtual_address = 0x400000

abbrev pub program_virtual_stack_address_start : ℕ
program_virtual_stack_address_start = 0x3ff000

abbrev pub user_data_segment : ℕ
user_data_segment = 0x23

abbrev pub user_code_segment : ℕ
user_code_segment = 0x1b

-- The list's globals and the structs at their addresses.
pub record Tasks : Type 0 where
  pub store : ℕ → Task
  pub current_task : ℕ
  pub task_tail : ℕ
  pub task_head : ℕ

-- The globals of the modules below task.c.
pub record System : Type 0 where
  pub heap : Heap
  pub memory : Words
  pub current_directory : ℕ
  pub for_one_time : ℕ
  pub tasks : Tasks

-- what paging.c sees of the system, and the system after a call of it
abbrev pub paging_of : System → Paging
paging_of s = record {
  pmm = s.heap.pmm;
  memory = s.memory;
  current_directory = s.current_directory;
  for_one_time = s.for_one_time;
}

abbrev pub with_paging : System → Paging → System
with_paging s p = record s {
  heap = record { pmm = p.pmm; big_blocks = s.heap.big_blocks };
  memory = p.memory;
  current_directory = p.current_directory;
  for_one_time = p.for_one_time;
}

-- `task->field = …`
abbrev pub write_task : Tasks → ℕ → Task → Tasks
write_task t addr v = record t { store = update t.store addr v }

-- task_switch: the directory is read through the task's chunk
unfoldable pub task_switch : System → ℕ → System
task_switch s task =
    let directory = s.memory (s.tasks.store task).page_directory in
    record s { tasks = record s.tasks { current_task = task }; current_directory = directory }

-- the registers that task_save_state copies
abbrev pub saved_registers : InterruptFrame → Registers
saved_registers frame = record {
  edi = frame.edi;
  esi = frame.esi;
  ebp = frame.ebp;
  ebx = frame.ebx;
  edx = frame.edx;
  ecx = frame.ecx;
  eax = frame.eax;
  ip = frame.ip;
  cs = frame.cs;
  flags = frame.flags;
  esp = frame.esp;
  ss = frame.ss;
}

-- task_save_state
unfoldable pub task_save_state : Tasks → ℕ → InterruptFrame → Tasks
task_save_state t task frame =
    write_task t task (record (t.store task) { registers = saved_registers frame })

-- task_current_save_state; `none` is the endless loop of panic
unfoldable pub task_current_save_state : Tasks → InterruptFrame → Option Tasks
unfolding task_save_state
task_current_save_state t frame =
    if t.current_task == 0 then none else some (task_save_state t t.current_task frame)

-- task_return with restore_general_purpose_registers: the registers behind its iretd, to a code
-- segment of the user. The flags are the kernel's, with the interrupts allowed, and not the stored
-- ones; `ebp` is where the kernel's stack was, since the `pop ebp` behind the loads undoes the load.
unfoldable pub task_return : Cpu → Registers → Registers
task_return cpu regs = record {
  edi = regs.edi;
  esi = regs.esi;
  ebp = cpu.esp;
  ebx = regs.ebx;
  edx = regs.edx;
  ecx = regs.ecx;
  eax = regs.eax;
  ip = regs.ip;
  cs = regs.cs;
  flags = bit_or cpu.flags 0x200;
  esp = regs.esp;
  ss = regs.ss;
}

-- task_run_first_ever_task, with the registers that task_return loads: the `if` above the call of
-- task_return has no block, so that it is the call's condition
unfoldable pub task_run_first_ever_task : Cpu → System → Option (System × Option Registers)
unfolding task_switch task_return
task_run_first_ever_task cpu s =
    if s.tasks.current_task == 0
    then none
    else (let t = task_switch s s.tasks.task_head in
        let head = t.tasks.store t.tasks.task_head in
        if t.memory head.page_directory == get_current_directory (paging_of t)
        then some (t, some (task_return cpu head.registers))
        else some (t, none))

-- the registers of a task that has not run
abbrev pub initial_registers : Registers
initial_registers = record zero_registers {
  ip = program_virtual_address;
  ss = user_data_segment;
  cs = user_code_segment;
  esp = program_virtual_stack_address_start;
}

-- the struct that task_init leaves behind
abbrev pub initial_task : ℕ → ℕ → Task
initial_task page_directory process = record {
  page_directory = page_directory;
  registers = initial_registers;
  process = process;
  next = 0;
  prev = 0;
}

-- task_init, once paging_new_4gb has returned
unfoldable pub finish_init : System → ℕ → ℕ → ℕ × Paging → ℤ × System
finish_init s task process (chunk, p) =
    let t = with_paging s p in
    if chunk == 0
    then (minus_one, record t { tasks = write_task t.tasks task zero_task })
    else (pos 0, record t { tasks = write_task t.tasks task (initial_task chunk process) })

-- task_init
unfoldable pub task_init : System → ℕ → ℕ → ℤ × System
unfolding finish_init
task_init s task process =
    finish_init s task process (new_4gb (paging_of s) (bit_or pte_present pte_access_from_all))

-- the end of task_new: the task is put at the end of the list
unfoldable pub append_task : Tasks → ℕ → Tasks
append_task t task =
    if t.task_head == 0
    then (record t { task_head = task; task_tail = task; current_task = task })
    else (let linked = write_task t t.task_tail (record (t.store t.task_tail) { next = task }) in
        record (write_task linked task (record (linked.store task) { prev = t.task_tail })) {
          task_tail = task;
        })

-- task_new, once task_init has returned
unfoldable pub finish_new : ℕ → ℤ × System → ℕ × System
unfolding append_task
finish_new task (pos zero, s) = (task, record s { tasks = append_task s.tasks task })
finish_new task (res, s) = (0, s)

-- the words that kzalloc clears, at address 0 if it has no block
unfoldable pub clear_words : Words → ℕ → ℕ → Words
clear_words m ptr count = array_loop (λ i m. update m (add32 ptr (4 * i)) 0) 0 count m

-- task_new; the struct is zeroed by kzalloc, and again by task_init
unfoldable pub task_new : System → ℕ → ℕ × System
unfolding finish_new
task_new s process =
    let (task, h) = kmallac s.heap sizeof_task in
    let cleared = record s { heap = h; memory = clear_words s.memory task (sizeof_task / 4) } in
    if task == 0 then (0, cleared) else finish_new task (task_init cleared task process)

-- task_get_next
unfoldable pub task_get_next : Tasks → ℕ
task_get_next t =
    if (t.store t.current_task).next == 0 then t.task_head else (t.store t.current_task).next

-- the four steps of task_list_remove
unfoldable pub unlink_next : Tasks → ℕ → Tasks
unlink_next t task =
    let prev = (t.store task).prev in
    if prev == 0
    then t
    else write_task t prev (record (t.store prev) { next = (t.store task).next })

unfoldable pub remove_head : Tasks → ℕ → Tasks
remove_head t task = if task == t.task_head then record t { task_head = (t.store task).next } else t

unfoldable pub remove_tail : Tasks → ℕ → Tasks
remove_tail t task = if task == t.task_tail then record t { task_tail = (t.store task).prev } else t

unfoldable pub remove_current : Tasks → ℕ → Tasks
unfolding task_get_next
remove_current t task =
    if task == t.current_task then record t { current_task = task_get_next t } else t

-- task_list_remove
unfoldable pub task_list_remove : Tasks → ℕ → Tasks
unfolding unlink_next remove_head remove_tail remove_current
task_list_remove t task =
    remove_current (remove_tail (remove_head (unlink_next t task) task) task) task

-- task_free
unfoldable pub task_free : System → ℕ → System
task_free s task =
    let p = free_4gb (paging_of s) (s.tasks.store task).page_directory in
    let t = with_paging s p in
    record t { heap = kfree t.heap task; tasks = task_list_remove t.tasks task }
