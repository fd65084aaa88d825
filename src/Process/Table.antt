-- ===== src/Process/Table.antt =====
-- What the end of process_load_for_slot leaves in the table of processes.
use simple_microkernel.Base.{ℕ, ◌≡◌, ◌≢◌, ◌⊎◌, update, ℤ, pos, minus_one}
use simple_microkernel.Task.{task_new}
use simple_microkernel.Process.{
  Process, Processes, user_program_stack_size, allocate, name_process, system_of,
}

-- the state once the stack has been allocated and the process has its name, and the allocations of
-- the stack and of the task
abbrev pub named : Processes → ℕ → ℕ → ℕ → Processes
named s filename process slot =
    let (stack, t) = allocate s user_program_stack_size in
    name_process t filename process slot stack

abbrev pub stack_of : Processes → ℕ
stack_of s = (allocate s user_program_stack_size).0

abbrev pub task_of : Processes → ℕ → ℕ → ℕ → ℕ
task_of s filename process slot = (task_new (system_of (named s filename process slot)) process).0

-- The process stands in the slot, with its number, its task and its stack.
pub record Loaded (s : Processes) (process slot stack task : ℕ) (r : ℤ × Processes) : Type 0 where
  pub result : r.0 ≡ pos 1
  pub stack_there : stack ≢ 0
  pub task_there : task ≢ 0
  pub table : r.1.processes ≡ update s.processes slot process
  pub entry : r.1.store process ≡ record (s.store process) { id = slot; task = task; stack = stack }
  pub others : (a : ℕ) → a ≢ process → r.1.store a ≡ s.store a

-- There was no memory for the stack or for the task.
pub record NotLoaded (s : Processes) (stack task : ℕ) (r : ℤ × Processes) : Type 0 where
  pub result : r.0 ≡ minus_one
  pub reason : (stack ≡ 0) ⊎ ((stack ≢ 0) × (task ≡ 0))
  pub table : r.1.processes ≡ s.processes
