-- ===== src/Task/Tests.antt =====
-- The theorems of task.c at concrete lists of tasks, and tests.
use simple_microkernel.Base.{Option, some, ◌≡◌, refl, [], ◌∷◌, ◌==◌, if◌then◌else◌, arith}
use simple_microkernel.Pmm.{memory_map_test}
use simple_microkernel.Pmm.Count.{count_free}
use simple_microkernel.Kheap.{empty_slot}
use simple_microkernel.Kheap.Valid.{HeapIsValid}
use simple_microkernel.Task.{
  Registers, Cpu, Tasks, System, task_run_first_ever_task, initial_task, task_get_next, task_new,
  task_list_remove,
}
use simple_microkernel.Task.List.{IsTaskList}
use simple_microkernel.Task.New.{Created, task_new-Created}
use simple_microkernel.Task.RoundRobin.{IsTurnOrder}
use simple_microkernel.Task.Start.{Started, task_run_first_ever_task-Started}
use simple_microkernel.Task.Remove.{Removed, task_list_remove-Removed}

-- three tasks, of which the second runs
abbrev three : Tasks
three = record {
  store = λ a.
      if a == 0x9000
      then (record (initial_task 0x20000 1) { next = 0xa000 })
      else (if a == 0xa000
          then (record (initial_task 0x30000 2) { next = 0xb000; prev = 0x9000 })
          else (record (initial_task 0x40000 3) { prev = 0xa000 }));
  current_task = 0xa000;
  task_tail = 0xb000;
  task_head = 0x9000;
}

three-IsTaskList : IsTaskList three (0x9000 ∷ 0xa000 ∷ 0xb000 ∷ [])
three-IsTaskList = record {
  head = refl;
  tail = refl;
  linked = (
    omega arith,
    refl,
    refl,
    (omega arith, (omega arith, tt)),
    (omega arith, refl, refl, (omega arith, tt), (omega arith, refl, refl, tt, tt)),
  );
}

three-IsTurnOrder : IsTurnOrder three (0xa000 ∷ 0xb000 ∷ 0x9000 ∷ [])
three-IsTurnOrder =
    (0xa000, 0xb000 ∷ [], 0x9000 ∷ [], refl, record { listed = three-IsTaskList; current = refl })

after_the_last : task_get_next (record three { current_task = 0xb000 }) ≡ 0x9000
unfolding task_get_next
after_the_last = refl

task_list_remove-Removed_example :
    Removed three (0x9000 ∷ []) 0xa000 (0xb000 ∷ []) (task_list_remove three 0xa000)
task_list_remove-Removed_example =
    task_list_remove-Removed three (0x9000 ∷ []) 0xa000 (0xb000 ∷ []) three-IsTaskList

-- 2000 blocks, of which only the first is used, and no task
abbrev booted : System
booted = record {
  heap = record {
    pmm = record {
      memory_map = λ w. if w == 0 then 1 else 0;
      used_blocks = 1;
      free_blocks = 1999;
      system_memory_size = 2000;
    };
    big_blocks = λ i. empty_slot;
  };
  memory = λ a. 0;
  current_directory = 0;
  for_one_time = 1;
  tasks = record { store = λ a. initial_task 0 0; current_task = 0; task_tail = 0; task_head = 0 };
}

booted-IsValid : HeapIsValid booted.heap
unfolding memory_map_test count_free
booted-IsValid = record {
  pmm_valid = record { in_4gb = omega arith; split = refl; counted = refl; reserved = refl };
  table_valid = record { owns = λ i u. absurd (u.1 refl); apart = λ i j ne u. absurd (u.1 refl) };
}

task_new-Created_example : Created booted [] 7 (task_new booted 7)
task_new-Created_example =
    task_new-Created {s = booted} 7 booted-IsValid
      (record { head = refl; tail = refl; linked = tt }) tt (omega arith)

-- the kernel at the call of task_return
abbrev in_kernel : Cpu
in_kernel = record { esp = 0x1fff0; flags = 0x46 }

task_run_first_ever_task-Started_example :
    (r : System × Option Registers) × (task_run_first_ever_task in_kernel
        (record booted { tasks = three })
      ≡ some r)
    × Started in_kernel (record booted { tasks = three }) 0x9000 (0xa000 ∷ 0xb000 ∷ []) r
task_run_first_ever_task-Started_example =
    task_run_first_ever_task-Started in_kernel (record booted { tasks = three }) 0x9000
      (0xa000 ∷ 0xb000 ∷ []) (omega arith) three-IsTaskList
