-- ===== src/Scheduler/Tick.antt =====
-- What a timer interrupt does, and which task it resumes.
use simple_microkernel.Base.{
  ℕ, ◌≡◌, ◌≢◌, refl, ap, some, List, [], ◌∷◌, ◌++◌, ne→==, update, update_self, update_ne,
}
use native.Mathlib.Decide.{ℕ_discrete}
use simple_microkernel.Task.{
  Registers, Cpu, InterruptFrame, Task, Tasks, System, saved_registers, task_switch,
  task_save_state, task_current_save_state,
}
use simple_microkernel.Task.Return.{
  SavedFrom, Resumes, saved_registers-SavedFrom, task_return-Resumes,
}
use simple_microkernel.Task.List.{Linked-same}
use simple_microkernel.Task.RoundRobin.{
  IsTurnOrder, next_turn-IsTurnOrder, IsTurnOrder-current, IsTurnOrder-nonzero,
}
use simple_microkernel.Scheduler.{schedule_next_task, isr_0x20_handler}

-- One timer interrupt while the order of the tasks is `x ∷ order`.
pub record Ticked (cpu : Cpu) (s : System) (frame : InterruptFrame) (x : ℕ) (order : List ℕ)
    (r : System × Registers) : Type 0 where
  pub saved : SavedFrom frame (r.0.tasks.store x).registers
  pub others : (a : ℕ) → a ≢ x → r.0.tasks.store a ≡ s.tasks.store a
  pub turn : IsTurnOrder r.0.tasks (order ++ x ∷ [])
  pub resumed : Resumes cpu (r.0.tasks.store r.0.tasks.current_task).registers r.1
  pub space :
      r.0.current_directory ≡ r.0.memory (r.0.tasks.store r.0.tasks.current_task).page_directory
  pub memory : r.0.memory ≡ s.memory

pointers-save :
    (t : Tasks) (x : ℕ) (frame : InterruptFrame) (a : ℕ)
    → let s' = update t.store x (record (t.store x) { registers = saved_registers frame }) in
      ((s' a).prev ≡ (t.store a).prev) × ((s' a).next ≡ (t.store a).next)
pointers-save t x frame a =
    let v = record (t.store x) { registers = saved_registers frame } in
    elim (ℕ_discrete a x) [
      | yes same ↦
          rw same (ap Task.prev (update_self t.store x v), ap Task.next (update_self t.store x v))
      | no other ↦ (
        ap Task.prev (update_ne t.store x v a other),
        ap Task.next (update_ne t.store x v a other),
      )
    ]

-- Saving registers leaves the list and the order alone.
save-IsTurnOrder :
    {t : Tasks} (x : ℕ) (frame : InterruptFrame) (order : List ℕ)
    → IsTurnOrder t order
    → IsTurnOrder (task_save_state t x frame) order
unfolding task_save_state
save-IsTurnOrder {t} x frame order (y, rest, back, e, ring) = (
  y,
  rest,
  back,
  e,
  record {
    listed = record {
      head = ring.listed.head;
      tail = ring.listed.tail;
      linked =
          Linked-same t.store
            (update t.store x (record (t.store x) { registers = saved_registers frame })) 0
            (back ++ y ∷ rest) (pointers-save t x frame) ring.listed.linked;
    };
    current = ring.current;
  },
)

-- the system at the call of schedule_next_task
abbrev stopped : ℕ → System → ℕ → InterruptFrame → System
stopped kernel_chunk s x frame = record s {
  current_directory = s.memory kernel_chunk;
  tasks = task_save_state s.tasks x frame;
}

handler-stopped :
    (kernel_chunk : ℕ) (cpu : Cpu) (s : System) (x : ℕ) (frame : InterruptFrame)
    → s.tasks.current_task ≡ x
    → x ≢ 0
    → isr_0x20_handler kernel_chunk cpu s frame
      ≡ some (schedule_next_task cpu (stopped kernel_chunk s x frame))
unfolding isr_0x20_handler task_current_save_state
handler-stopped kernel_chunk cpu s x frame e ne = rw (e, ne→== x 0 ne)

stopped-Ticked :
    {s : System} (kernel_chunk : ℕ) (cpu : Cpu) (frame : InterruptFrame) (x : ℕ) (order : List ℕ)
    → IsTurnOrder s.tasks (x ∷ order)
    → Ticked cpu s frame x order (schedule_next_task cpu (stopped kernel_chunk s x frame))
unfolding schedule_next_task task_switch task_save_state
stopped-Ticked {s} kernel_chunk cpu frame x order o =
    let v = record (s.tasks.store x) { registers = saved_registers frame } in
    record {
      saved = rw (update_self s.tasks.store x v) (saved_registers-SavedFrom frame);
      others = λ a ne. update_ne s.tasks.store x v a ne;
      turn = next_turn-IsTurnOrder x order (save-IsTurnOrder x frame (x ∷ order) o);
      resumed = task_return-Resumes cpu _;
      space = refl;
      memory = refl;
    }

-- A timer interrupt saves the interrupted task's registers, changes no other task, moves it to the
-- end of the order, and resumes the next task in its address space. That task's registers are those
-- stored for it except for two: the flags are the kernel's with the interrupts allowed, and `ebp` is
-- the kernel's stack pointer.
pub isr_0x20_handler-Ticked :
    {s : System} (kernel_chunk : ℕ) (cpu : Cpu) (frame : InterruptFrame) (x : ℕ) (order : List ℕ)
    → IsTurnOrder s.tasks (x ∷ order)
    → (r : System × Registers) × (isr_0x20_handler kernel_chunk cpu s frame ≡ some r)
      × Ticked cpu s frame x order r
isr_0x20_handler-Ticked {s} kernel_chunk cpu frame x order o = (
  schedule_next_task cpu (stopped kernel_chunk s x frame),
  handler-stopped kernel_chunk cpu s x frame (IsTurnOrder-current x order o)
      (IsTurnOrder-nonzero x order o),
  stopped-Ticked kernel_chunk cpu frame x order o,
)
