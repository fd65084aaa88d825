-- ===== src/Isr80h.antt =====
-- src/isr80h/isr80h.c and src/isr80h/misc.c: the two system calls, and their registration. The
-- bytes of the kernel and the screen are beside the system; a command's address is that of its
-- function. The endless loop of panic keeps what is on the screen.
pub mod Commands
mod Tests
use simple_microkernel.Base.{ℕ, ◌+◌, Option, some, none, ◌>>=◌, add32, ℤ, pos}
use simple_microkernel.Memory.{Bytes}
use simple_microkernel.Task.{Task, Tasks, System}
use simple_microkernel.Task.Access.{task_current, task_get_stack_item, copy_string_from_task}
use simple_microkernel.Idt.{isr80h_register_command}
use simple_microkernel.Terminal.{Terminal, kernel_print, kernel_print_uint}

-- SYSTEM_COMMAND0_SUM and SYSTEM_COMMAND4_SYS_WRITE
abbrev pub system_command0_sum : ℕ
system_command0_sum = 0

abbrev pub system_command4_sys_write : ℕ
system_command4_sys_write = 4

-- isr80h_register_commands, with the addresses of the two functions
unfoldable pub isr80h_register_commands : (ℕ → ℕ) → ℕ → ℕ → Option (ℕ → ℕ)
unfolding isr80h_register_command
isr80h_register_commands commands sum sys_write = do
  registered ← isr80h_register_command commands (pos system_command0_sum) sum
  isr80h_register_command registered (pos system_command4_sys_write) sys_write

-- isr80h_command0_sum, which never returns: the screen in front of which it stops. `buffer` is what
-- the array of kernel_print_uint holds, `message` the text of the panic.
unfoldable pub isr80h_command0_sum : ℕ → ℕ → System → Terminal → (ℕ → ℕ) → (ℕ → ℕ) → Option Terminal
unfolding task_get_stack_item
isr80h_command0_sum fuel kernel_chunk s screen buffer message =
    let (res, t) = task_get_stack_item kernel_chunk s (task_current s.tasks) 0 in
    kernel_print fuel (kernel_print_uint screen buffer res) message

-- isr80h_command4_sys_write, with its local array at `buffer`
unfoldable pub isr80h_command4_sys_write :
    ℕ → ℕ → System → Bytes → Terminal → ℕ → Option (ℕ × System × Bytes × Terminal)
unfolding copy_string_from_task
isr80h_command4_sys_write fuel kernel_chunk s bytes screen buffer = do
  let task = task_current s.tasks
  let ebx = (s.tasks.store task).registers.ebx
  let (res, t, m) = copy_string_from_task kernel_chunk s bytes task ebx buffer 512
  printed ← kernel_print fuel screen (λ i. m (add32 buffer i))
  some (0, t, m, printed)
