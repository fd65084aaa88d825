-- ===== src/Idt/Tests.antt =====
-- The theorems of idt.c for concrete handlers and commands.
use simple_microkernel.Base.{arith}
use simple_microkernel.Kheap.{empty_slot}
use simple_microkernel.Task.{InterruptFrame, System, initial_task}
use simple_microkernel.Idt.{Handlers, idt_init}
use simple_microkernel.Idt.Descriptors.{IsGate, idt_init-IsGate}

abbrev handlers : Handlers
handlers = record {
  no_interrupt = 0x100100;
  idt_zero = 0x100200;
  isr80h_wrapper = 0x100300;
  isr_0x20_wrapper = 0x100400;
}

abbrev running : System
running = record {
  heap = record {
    pmm = record { memory_map = λ w. 0; used_blocks = 0; free_blocks = 0; system_memory_size = 0 };
    big_blocks = λ i. empty_slot;
  };
  memory = λ a. a;
  current_directory = 0x8000;
  for_one_time = 1;
  tasks = record {
    store = λ a. initial_task 0x20000 1;
    current_task = 0x9000;
    task_tail = 0x9000;
    task_head = 0x9000;
  };
}

abbrev stopped : InterruptFrame
stopped = record {
  edi = 1;
  esi = 2;
  ebp = 3;
  reserved = 4;
  ebx = 5;
  edx = 6;
  ecx = 7;
  eax = 9;
  ip = 0x400010;
  cs = 0x1b;
  flags = 0x202;
  esp = 0x3fe000;
  ss = 0x23;
}

idt_init-IsGate_example : IsGate 0x100300 (idt_init handlers 0x80)
idt_init-IsGate_example = idt_init-IsGate handlers 0x80 (omega arith)
