-- ===== src/Task/Start.antt =====
-- task_run_first_ever_task: the first task of the list starts.
use mathlib.Core.List.{append-nil}
use simple_microkernel.Base.{ℕ, ◌≡◌, ◌≢◌, refl, sym, ap, Option, some, List, [], ◌∷◌, eq→==, ne→==}
use simple_microkernel.Task.{
  Registers, Cpu, System, task_return, task_switch, task_run_first_ever_task,
}
use simple_microkernel.Task.Return.{Resumes, task_return-Resumes}
use simple_microkernel.Task.List.{IsTaskList}
use simple_microkernel.Task.RoundRobin.{IsTurnOrder}

-- The task `x` runs, and the other tasks follow in the order of the list.
pub record Started (cpu : Cpu) (s : System) (x : ℕ) (xs : List ℕ) (r : System × Option Registers)
    : Type 0 where
  pub registers :
      (loaded : Registers) × (r.1 ≡ some loaded) × Resumes cpu (s.tasks.store x).registers loaded
  pub space : r.0.current_directory ≡ s.memory (s.tasks.store x).page_directory
  pub order : IsTurnOrder r.0.tasks (x ∷ xs)

-- If a task has been created, task_run_first_ever_task lets the first task of the list go on in its
-- address space, and the order of the tasks is then that of the list. Its registers are the stored
-- ones except for two: the flags are the kernel's with the interrupts allowed, and `ebp` is the
-- kernel's stack pointer.
pub task_run_first_ever_task-Started :
    (cpu : Cpu) (s : System) (x : ℕ) (xs : List ℕ)
    → s.tasks.current_task ≢ 0
    → IsTaskList s.tasks (x ∷ xs)
    → (r : System × Option Registers) × (task_run_first_ever_task cpu s ≡ some r)
      × Started cpu s x xs r
unfolding task_run_first_ever_task task_switch
task_run_first_ever_task-Started cpu s x xs created l =
    let h = s.tasks.task_head in
    let directory = s.memory (s.tasks.store h).page_directory in
    let t = task_switch s h in
    (
      (t, some (task_return cpu (s.tasks.store h).registers)),
      rw (ne→== s.tasks.current_task 0 created, eq→== directory directory refl) refl,
      record {
        registers = (
          task_return cpu (s.tasks.store h).registers,
          refl,
          rw (← l.head) (task_return-Resumes cpu (s.tasks.store h).registers),
        );
        space = ap (λ a. s.memory (s.tasks.store a).page_directory) l.head;
        order = (
          x,
          xs,
          [],
          ap (λ (zs : List ℕ). x ∷ zs) (sym (append-nil xs)),
          record {
            listed = record { head = l.head; tail = l.tail; linked = l.linked };
            current = l.head;
          },
        );
      },
    )
