-- ===== src/Task/Return.antt =====
-- What the registers of a task are when it is stopped and when it goes on.
use simple_microkernel.Base.{◌≡◌, refl, ◌∙◌, bit_or}
use simple_microkernel.Task.{Registers, InterruptFrame, Cpu, saved_registers, task_return}

-- The stored registers are those of the interrupt's frame.
pub record SavedFrom (frame : InterruptFrame) (stored : Registers) : Type 0 where
  pub edi : stored.edi ≡ frame.edi
  pub esi : stored.esi ≡ frame.esi
  pub ebp : stored.ebp ≡ frame.ebp
  pub ebx : stored.ebx ≡ frame.ebx
  pub edx : stored.edx ≡ frame.edx
  pub ecx : stored.ecx ≡ frame.ecx
  pub eax : stored.eax ≡ frame.eax
  pub ip : stored.ip ≡ frame.ip
  pub cs : stored.cs ≡ frame.cs
  pub flags : stored.flags ≡ frame.flags
  pub esp : stored.esp ≡ frame.esp
  pub ss : stored.ss ≡ frame.ss

-- The task goes on with its stored registers, except for `ebp` and the flags, which the kernel leaves
-- behind.
pub record Resumes (cpu : Cpu) (stored loaded : Registers) : Type 0 where
  pub edi : loaded.edi ≡ stored.edi
  pub esi : loaded.esi ≡ stored.esi
  pub ebp : loaded.ebp ≡ cpu.esp
  pub ebx : loaded.ebx ≡ stored.ebx
  pub edx : loaded.edx ≡ stored.edx
  pub ecx : loaded.ecx ≡ stored.ecx
  pub eax : loaded.eax ≡ stored.eax
  pub ip : loaded.ip ≡ stored.ip
  pub cs : loaded.cs ≡ stored.cs
  pub flags : loaded.flags ≡ bit_or cpu.flags 0x200
  pub esp : loaded.esp ≡ stored.esp
  pub ss : loaded.ss ≡ stored.ss

-- The same for a task that was stopped with the frame.
pub record ResumesFrame (cpu : Cpu) (frame : InterruptFrame) (loaded : Registers) : Type 0 where
  pub edi : loaded.edi ≡ frame.edi
  pub esi : loaded.esi ≡ frame.esi
  pub ebp : loaded.ebp ≡ cpu.esp
  pub ebx : loaded.ebx ≡ frame.ebx
  pub edx : loaded.edx ≡ frame.edx
  pub ecx : loaded.ecx ≡ frame.ecx
  pub eax : loaded.eax ≡ frame.eax
  pub ip : loaded.ip ≡ frame.ip
  pub cs : loaded.cs ≡ frame.cs
  pub flags : loaded.flags ≡ bit_or cpu.flags 0x200
  pub esp : loaded.esp ≡ frame.esp
  pub ss : loaded.ss ≡ frame.ss

pub saved_registers-SavedFrom : (frame : InterruptFrame) → SavedFrom frame (saved_registers frame)
saved_registers-SavedFrom frame = record {
  edi = refl;
  esi = refl;
  ebp = refl;
  ebx = refl;
  edx = refl;
  ecx = refl;
  eax = refl;
  ip = refl;
  cs = refl;
  flags = refl;
  esp = refl;
  ss = refl;
}

pub task_return-Resumes :
    (cpu : Cpu) (stored : Registers) → Resumes cpu stored (task_return cpu stored)
unfolding task_return
task_return-Resumes cpu stored = record {
  edi = refl;
  esi = refl;
  ebp = refl;
  ebx = refl;
  edx = refl;
  ecx = refl;
  eax = refl;
  ip = refl;
  cs = refl;
  flags = refl;
  esp = refl;
  ss = refl;
}

pub Resumes-frame :
    {cpu : Cpu} {frame : InterruptFrame} {stored loaded : Registers}
    → SavedFrom frame stored
    → Resumes cpu stored loaded
    → ResumesFrame cpu frame loaded
Resumes-frame s r = record {
  edi = r.edi ∙ s.edi;
  esi = r.esi ∙ s.esi;
  ebp = r.ebp;
  ebx = r.ebx ∙ s.ebx;
  edx = r.edx ∙ s.edx;
  ecx = r.ecx ∙ s.ecx;
  eax = r.eax ∙ s.eax;
  ip = r.ip ∙ s.ip;
  cs = r.cs ∙ s.cs;
  flags = r.flags;
  esp = r.esp ∙ s.esp;
  ss = r.ss ∙ s.ss;
}
