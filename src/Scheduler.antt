-- ===== src/Scheduler.antt =====
-- src/scheduler/scheduler.c, and the timer interrupt of src/idt/idt.c that calls it. The functions
-- end in task_return: the registers of the task that goes on are the result. What task_return finds
-- in the processor is an argument.
pub mod Resume
pub mod Tick
mod Tests
use simple_microkernel.Base.{ℕ, Option, some, none, List, [], ◌∷◌}
use simple_microkernel.Task.{
  Registers, Cpu, task_return, InterruptFrame, Task, Tasks, System, task_switch, task_get_next,
  task_current_save_state,
}

-- schedule_next_task
unfoldable pub schedule_next_task : Cpu → System → System × Registers
unfolding task_switch task_return
schedule_next_task cpu s =
    let new_task = task_get_next s.tasks in
    let s' = task_switch s new_task in (s', task_return cpu (s'.tasks.store new_task).registers)

-- kernel_page of kernel.c, with the address of the kernel's chunk; the segment registers are not
-- modelled
unfoldable pub kernel_page : ℕ → System → System
kernel_page kernel_chunk s = record s { current_directory = s.memory kernel_chunk }

-- the rest of isr_0x20_handler, once the state of the current task has been saved
unfoldable pub schedule_saved : Cpu → System → Option Tasks → Option (System × Registers)
schedule_saved cpu s none = none
schedule_saved cpu s (some tasks) = some (schedule_next_task cpu (record s { tasks = tasks }))

-- isr_0x20_handler; `none` is the panic of task_current_save_state
unfoldable pub isr_0x20_handler : ℕ → Cpu → System → InterruptFrame → Option (System × Registers)
unfolding kernel_page schedule_saved
isr_0x20_handler kernel_chunk cpu s frame =
    let k = kernel_page kernel_chunk s in
    schedule_saved cpu k (task_current_save_state k.tasks frame)

-- the state after a sequence of timer interrupts, and the registers that the last one loads
unfoldable pub ticks_from :
    ℕ → Option (System × Registers) → List (Cpu × InterruptFrame) → Option (System × Registers)
ticks_from kernel_chunk none frames = none
ticks_from kernel_chunk (some r) [] = some r
ticks_from kernel_chunk (some r) ((cpu, f) ∷ frames) =
    ticks_from kernel_chunk (isr_0x20_handler kernel_chunk cpu r.0 f) frames
