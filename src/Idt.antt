-- ===== src/Idt.antt =====
-- src/idt/idt.c: the interrupt descriptors, and the table of the commands of interrupt 0x80. A
-- function is its address. The timer's handler stands in Scheduler. Loading the descriptor register
-- and the acknowledgement of an interrupt are left out.
pub mod Descriptors
pub mod Commands
mod Tests
use simple_microkernel.Base.{
  ℕ, zero, suc, ◌+◌, ◌-◌, ◌*◌, ◌/◌, ◌%◌, ◌^◌, ◌==◌, if◌then◌else◌, Bool, ◌||◌, not, update,
  array_loop, bit_and, Option, some, none, ℤ, pos, pos_part, is_negative, lt_ℤ,
}
use simple_microkernel.Task.{InterruptFrame, Tasks, System, task_switch, task_current_save_state}
use simple_microkernel.Scheduler.{kernel_page}

-- struct idt_desc
pub record IdtDesc : Type 0 where
  pub offset_1 : ℕ
  pub selector : ℕ
  pub zero_byte : ℕ
  pub type_attr : ℕ
  pub offset_2 : ℕ

-- TOTAL_INTERRUPTS, MAX_ISR80H_COMMANDS and KERNEL_CODE_SELECTOR
abbrev pub total_interrupts : ℕ
total_interrupts = 512

abbrev pub max_isr80h_commands : ℕ
max_isr80h_commands = 1024

abbrev pub kernel_code_selector : ℕ
kernel_code_selector = 0x08

-- idt_set
unfoldable pub idt_set : (ℕ → IdtDesc) → ℕ → ℕ → ℕ → IdtDesc
idt_set descriptors interrupt_no address = update descriptors interrupt_no (record {
  offset_1 = bit_and address 0xffff;
  selector = kernel_code_selector;
  zero_byte = 0;
  type_attr = 0xee;
  offset_2 = address / 2 ^ 16;
})

-- the addresses of no_interrupt, idt_zero, isr80h_wrapper and isr_0x20_wrapper
pub record Handlers : Type 0 where
  pub no_interrupt : ℕ
  pub idt_zero : ℕ
  pub isr80h_wrapper : ℕ
  pub isr_0x20_wrapper : ℕ

-- the descriptor of zero bytes
abbrev pub zero_desc : IdtDesc
zero_desc = record { offset_1 = 0; selector = 0; zero_byte = 0; type_attr = 0; offset_2 = 0 }

-- idt_init up to idt_load
unfoldable pub idt_init : Handlers → ℕ → IdtDesc
unfolding idt_set
idt_init h =
    let cleared : ℕ → IdtDesc = λ i. zero_desc in
    let filled = array_loop (λ i d. idt_set d i h.no_interrupt) 0 total_interrupts cleared in
    idt_set (idt_set (idt_set filled 0 h.idt_zero) 0x80 h.isr80h_wrapper) 0x20 h.isr_0x20_wrapper

-- `command < 0 || command >= MAX_ISR80H_COMMANDS`
abbrev pub out_of_bounds : ℤ → Bool
out_of_bounds command = is_negative command || not (lt_ℤ command (pos max_isr80h_commands))

-- isr80h_register_command; 0 is no command, and `none` is the endless loop of panic
unfoldable pub isr80h_register_command : (ℕ → ℕ) → ℤ → ℕ → Option (ℕ → ℕ)
isr80h_register_command commands command_id command =
    if out_of_bounds command_id
    then none
    else (if not (commands (pos_part command_id) == 0)
        then none
        else some (update commands (pos_part command_id) command))

-- task_page, without the segment registers
unfoldable pub task_page : System → System
unfolding task_switch
task_page s = task_switch s s.tasks.current_task

-- A command runs with the frame of the interrupt; its result is the pointer and the new state, or
-- `none` if it panics.
module _ (run : ℕ → InterruptFrame → System → Option (ℕ × System)) where
  -- isr80h_handle_command
  unfoldable pub isr80h_handle_command : (ℕ → ℕ) → ℤ → InterruptFrame → System → Option (ℕ × System)
  isr80h_handle_command commands command frame s =
      if out_of_bounds command
      then some (0, s)
      else (if commands (pos_part command) == 0
          then some (0, s)
          else run (commands (pos_part command)) frame s)

  -- the end of isr80h_handler
  abbrev pub return_to_task : Option (ℕ × System) → Option (ℕ × System)
  return_to_task none = none
  return_to_task (some (res, s)) = some (res, task_page s)

  -- isr80h_handler, once the state of the current task has been saved
  unfoldable pub handle_saved :
      (ℕ → ℕ) → ℤ → InterruptFrame → System → Option Tasks → Option (ℕ × System)
  unfolding isr80h_handle_command task_page
  handle_saved commands command frame s none = none
  handle_saved commands command frame s (some tasks) =
      return_to_task (isr80h_handle_command commands command frame (record s { tasks = tasks }))

  -- isr80h_handler
  unfoldable pub isr80h_handler : ℕ → (ℕ → ℕ) → ℤ → InterruptFrame → System → Option (ℕ × System)
  unfolding kernel_page handle_saved
  isr80h_handler kernel_chunk commands command frame s =
      let k = kernel_page kernel_chunk s in
      handle_saved commands command frame k (task_current_save_state k.tasks frame)
