-- ===== src/Scheduler/Tests.antt =====
-- The theorems of the scheduler with two tasks.
use simple_microkernel.Base.{ℕ, ◌≡◌, refl, some, [], ◌∷◌, ◌==◌, if◌then◌else◌, arith}
use simple_microkernel.Kheap.{empty_slot}
use simple_microkernel.Task.{Registers, Cpu, InterruptFrame, System, initial_task}
use simple_microkernel.Task.RoundRobin.{IsTurnOrder}
use simple_microkernel.Scheduler.{isr_0x20_handler, ticks_from}
use simple_microkernel.Scheduler.Tick.{Ticked, isr_0x20_handler-Ticked}
use simple_microkernel.Scheduler.Resume.{Resumed, ticks_from-Resumed}

-- two tasks, of which the second runs
abbrev two : System
two = record {
  heap = record {
    pmm = record { memory_map = λ w. 0; used_blocks = 0; free_blocks = 0; system_memory_size = 0 };
    big_blocks = λ i. empty_slot;
  };
  memory = λ a. a;
  current_directory = 0x8000;
  for_one_time = 1;
  tasks = record {
    store = λ a.
        if a == 0x9000
        then (record (initial_task 0x20000 1) { next = 0xa000 })
        else (record (initial_task 0x30000 2) { prev = 0x9000 });
    current_task = 0xa000;
    task_tail = 0xa000;
    task_head = 0x9000;
  };
}

two-IsTurnOrder : IsTurnOrder two.tasks (0xa000 ∷ 0x9000 ∷ [])
two-IsTurnOrder = (
  0xa000,
  [],
  0x9000 ∷ [],
  refl,
  record {
    listed = record {
      head = refl;
      tail = refl;
      linked = (omega arith, refl, refl, (omega arith, tt), (omega arith, refl, refl, tt, tt));
    };
    current = refl;
  },
)

abbrev stopped_at : ℕ → InterruptFrame
stopped_at ip = record {
  edi = 1;
  esi = 2;
  ebp = 3;
  reserved = 4;
  ebx = 5;
  edx = 6;
  ecx = 7;
  eax = 8;
  ip = ip;
  cs = 0x1b;
  flags = 0x202;
  esp = 0x3fe000;
  ss = 0x23;
}

-- the kernel at the call of task_return
abbrev in_kernel : Cpu
in_kernel = record { esp = 0x1fff0; flags = 0x46 }

isr_0x20_handler-Ticked_example :
    (r : System × Registers) × (isr_0x20_handler 0x7000 in_kernel two (stopped_at 0x400010)
      ≡ some r)
    × Ticked in_kernel two (stopped_at 0x400010) 0xa000 (0x9000 ∷ []) r
isr_0x20_handler-Ticked_example =
    isr_0x20_handler-Ticked {s = two} 0x7000 in_kernel (stopped_at 0x400010) 0xa000 (0x9000 ∷ [])
      two-IsTurnOrder

ticks_from-Resumed_example :
    (r : System × Registers) × (ticks_from 0x7000
        (isr_0x20_handler 0x7000 in_kernel two (stopped_at 0x400010))
        ((in_kernel, stopped_at 0x400020) ∷ [])
      ≡ some r)
    × Resumed 0xa000 in_kernel (stopped_at 0x400010) r
ticks_from-Resumed_example =
    ticks_from-Resumed two 0x7000 0xa000 (0x9000 ∷ []) in_kernel (stopped_at 0x400010)
      ((in_kernel, stopped_at 0x400020) ∷ []) two-IsTurnOrder refl
