-- ===== src/Idt/Commands.antt =====
-- The commands of interrupt 0x80: what registering one changes, and what an unknown one does.
use native.Mathlib.Decide.{ℕ_discrete}
use simple_microkernel.Base.{
  ℕ, ◌+◌, ◌<◌, ◌≡◌, ◌≢◌, ◌⊎◌, inl, inr, refl, ◌∙◌, ap, ◌==◌, if◌then◌else◌, true, false, not, eq→==,
  ne→==, Bool-cases, lt→ltb, update, update_self, update_ne, Option, some, none, ℤ, pos, pos_part,
  arith,
}
use simple_microkernel.Task.{
  InterruptFrame, Task, saved_registers, Tasks, System, task_save_state, task_current_save_state,
  task_switch,
}
use simple_microkernel.Scheduler.{kernel_page}
use simple_microkernel.Idt.{
  out_of_bounds, isr80h_register_command, isr80h_handle_command, isr80h_handler, handle_saved,
  return_to_task, task_page,
}

abbrev pub Runner : Type 0
Runner = ℕ → InterruptFrame → System → Option (ℕ × System)

-- The table `t'` has the command at `id`, and handles every other command like `t`.
abbrev pub Registered : (ℕ → ℕ) → ℕ → ℕ → (ℕ → ℕ) → Type 0
Registered t id command t' =
    (run : Runner) (other : ℤ) (frame : InterruptFrame) (s : System)
    → isr80h_handle_command run t' other frame s ≡ (
        if out_of_bounds other
        then some (0, s)
        else (if pos_part other == id
            then run command frame s
            else isr80h_handle_command run t other frame s))

in_bounds : (id : ℕ) → id < 1024 → out_of_bounds (pos id) ≡ false
in_bounds id h = ap not (lt→ltb (id + 0) 1024 (omega arith))

pub registered :
    (t : ℕ → ℕ) (id command : ℕ) → command ≢ 0 → Registered t id command (update t id command)
unfolding isr80h_handle_command
registered t id command ne run other frame s = elim (Bool-cases (out_of_bounds other)) [
  | inl out ↦ rw out refl
  | inr inside ↦ elim (ℕ_discrete (pos_part other) id) [
    | yes same ↦
        let here = ap (update t id command) same ∙ update_self t id command in
        rw (inside, here, eq→== (pos_part other) id same, ne→== command 0 ne) refl
    | no apart ↦
        rw (inside, update_ne t id command (pos_part other) apart, ne→== (pos_part other) id apart)
          refl
  ]
]

-- A command can be registered under every number below 1024 that is free; from then on that number
-- runs it, and all other numbers do what they did.
pub isr80h_register_command-Registered :
    (t : ℕ → ℕ) (id command : ℕ)
    → id < 1024
    → t id ≡ 0
    → command ≢ 0
    → (t' : ℕ → ℕ) × (isr80h_register_command t (pos id) command ≡ some t')
      × Registered t id command t'
unfolding isr80h_register_command
isr80h_register_command-Registered t id command h free ne =
    (update t id command, rw (in_bounds id h, eq→== (t id) 0 free) refl, registered t id command ne)

-- A number out of bounds, or one that is taken, cannot be registered: the kernel panics.
pub isr80h_register_command-refused :
    (t : ℕ → ℕ) (id : ℤ) (command : ℕ)
    → (out_of_bounds id ≡ true) ⊎ (t (pos_part id) ≢ 0)
    → isr80h_register_command t id command ≡ none
unfolding isr80h_register_command
isr80h_register_command-refused t id command (inl out) = rw out refl
isr80h_register_command-refused t id command (inr taken) = elim (Bool-cases (out_of_bounds id)) [
  | inl out ↦ rw out refl
  | inr inside ↦ rw (inside, ne→== (t (pos_part id)) 0 taken) refl
]

-- what a system call that does nothing leaves behind
pub record OnlySaved (s : System) (frame : InterruptFrame) (s' : System) : Type 0 where
  pub tasks : s'.tasks ≡ task_save_state s.tasks s.tasks.current_task frame
  pub space : s'.current_directory ≡ s.memory (s.tasks.store s.tasks.current_task).page_directory
  pub memory : s'.memory ≡ s.memory

handle-unknown :
    (run : Runner) (t : ℕ → ℕ) (command : ℤ) (frame : InterruptFrame) (s : System)
    → (out_of_bounds command ≡ true) ⊎ (t (pos_part command) ≡ 0)
    → isr80h_handle_command run t command frame s ≡ some (0, s)
unfolding isr80h_handle_command
handle-unknown run t command frame s (inl out) = rw out refl
handle-unknown run t command frame s (inr free) = elim (Bool-cases (out_of_bounds command)) [
  | inl out ↦ rw out refl
  | inr inside ↦ rw (inside, eq→== (t (pos_part command)) 0 free) refl
]

saved_state :
    (t : Tasks) (frame : InterruptFrame)
    → t.current_task ≢ 0
    → task_current_save_state t frame ≡ some (task_save_state t t.current_task frame)
unfolding task_current_save_state
saved_state t frame ne = rw (ne→== t.current_task 0 ne) refl

-- A system call with an unknown number returns 0 to the task that made it: the task is still the
-- current one, its registers have been saved, and its address space is current again.
pub isr80h_handler-unknown :
    (run : Runner) (kernel_chunk : ℕ) (t : ℕ → ℕ) (command : ℤ) (frame : InterruptFrame)
    (s : System)
    → s.tasks.current_task ≢ 0
    → (out_of_bounds command ≡ true) ⊎ (t (pos_part command) ≡ 0)
    → (s' : System) × (isr80h_handler run kernel_chunk t command frame s ≡ some (0, s'))
      × OnlySaved s frame s'
unfolding isr80h_handler handle_saved task_page task_switch kernel_page task_save_state
isr80h_handler-unknown run kernel_chunk t command frame s running unknown =
    let k = kernel_page kernel_chunk s in
    let tasks = task_save_state s.tasks s.tasks.current_task frame in
    let v = record (s.tasks.store s.tasks.current_task) { registers = saved_registers frame } in
    (
      task_page (record k { tasks = tasks }),
      ap (handle_saved run t command frame k) (saved_state k.tasks frame running)
          ∙ ap (return_to_task run)
              (handle-unknown run t command frame (record k { tasks = tasks }) unknown),
      record {
        tasks = refl;
        space =
            ap (λ (x : Task). s.memory x.page_directory)
              (update_self s.tasks.store s.tasks.current_task v);
        memory = refl;
      },
    )
