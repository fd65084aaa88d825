-- ===== src/Scheduler/Resume.antt =====
-- A task that a timer interrupt stops comes back when the others have had a turn.
use simple_microkernel.Base.{ℕ, length, ◌≡◌, refl, ◌∙◌, ap, some, List, [], ◌∷◌, ◌++◌, arith}
use mathlib.Core.List.{append_assoc}
use simple_microkernel.Task.{Registers, Cpu, InterruptFrame, Tasks, System}
use simple_microkernel.Task.Return.{Resumes, ResumesFrame, Resumes-frame}
use simple_microkernel.Task.List.{NotIn, NotIn-before, NotIn-behind}
use simple_microkernel.Task.RoundRobin.{IsTurnOrder, IsTurnOrder-current}
use simple_microkernel.Scheduler.{isr_0x20_handler, ticks_from}
use simple_microkernel.Scheduler.Tick.{isr_0x20_handler-Ticked}

NotIn-join : (a : ℕ) (xs ys : List ℕ) → NotIn a xs → NotIn a ys → NotIn a (xs ++ ys)
NotIn-join a [] ys h k = k
NotIn-join a (x ∷ xs) ys (ne, h) k = (ne, NotIn-join a xs ys h k)

IsTurnOrder-NotIn : {t : Tasks} (x : ℕ) (order : List ℕ) → IsTurnOrder t (x ∷ order) → NotIn x order
IsTurnOrder-NotIn {t} x order (y, rest, back, e, ring) =
    let same : x ≡ y = cc in
    let tail : order ≡ rest ++ back = cc in
    rw (same, tail)
      (NotIn-join y rest back (NotIn-behind t.store 0 back y rest ring.listed.linked)
        (NotIn-before t.store 0 back y rest ring.listed.linked))

-- the processor at the last of the interrupts
abbrev pub last_cpu : Cpu → List (Cpu × InterruptFrame) → Cpu
last_cpu cpu [] = cpu
last_cpu cpu (t ∷ ts) = last_cpu t.0 ts

-- the registers that were loaded are those stored for the current task
abbrev IsLoaded : Cpu → System × Registers → Type 0
IsLoaded cpu r = Resumes cpu (r.0.tasks.store r.0.tasks.current_task).registers r.1

-- The task `x` is current again, with its stored registers.
record Returned (x : ℕ) (cpu : Cpu) (stored : Registers) (r : System × Registers) : Type 0 where
  current : r.0.tasks.current_task ≡ x
  registers : Resumes cpu stored r.1

-- What the task `x`, which was stopped with the frame, finds when it is current again.
pub record Resumed (x : ℕ) (cpu : Cpu) (frame : InterruptFrame) (r : System × Registers)
    : Type 0 where
  pub current : r.0.tasks.current_task ≡ x
  pub registers : ResumesFrame cpu frame r.1

resumes :
    (r : System × Registers) (kernel_chunk : ℕ) (cpu : Cpu) (us : List ℕ) (x : ℕ) (vs : List ℕ)
    (frames : List (Cpu × InterruptFrame))
    → length frames ≡ length us
    → IsTurnOrder r.0.tasks (us ++ x ∷ vs)
    → NotIn x us
    → IsLoaded cpu r
    → (r' : System × Registers) × (ticks_from kernel_chunk (some r) frames ≡ some r')
      × Returned x (last_cpu cpu frames) (r.0.tasks.store x).registers r'
unfolding ticks_from
resumes r kernel_chunk cpu [] x vs [] n o out loaded =
    let current = IsTurnOrder-current x vs o in
    (r, refl, record { current = current; registers = rw current at loaded })
resumes r kernel_chunk cpu [] x vs ((cpu', f) ∷ frames) n o out loaded = absurd (omega (arith, n))
resumes r kernel_chunk cpu (u ∷ us) x vs [] n o out loaded = absurd (omega (arith, n))
resumes r kernel_chunk cpu (u ∷ us) x vs ((cpu', f) ∷ frames) n o (ne, out) loaded =
    let (r1, run, t) = isr_0x20_handler-Ticked {s = r.0} kernel_chunk cpu' f u (us ++ x ∷ vs) o in
    let (r2, run', done) =
      resumes r1 kernel_chunk cpu' us x (vs ++ u ∷ []) frames (omega (arith, n))
        (rw append_assoc at t.turn) out t.resumed in
    (
      r2,
      ap (λ o. ticks_from kernel_chunk o frames) run ∙ run',
      record { current = done.current; registers = rw (t.others x ne) at done.registers },
    )

-- A task `x` that a timer interrupt stops with the frame `f` is the current one again after as many
-- further interrupts as there are other tasks. Its registers are then those of `f`, whatever the
-- frames of the others are, except for two: the flags are the kernel's at the last interrupt, with
-- the interrupts allowed, and `ebp` is the kernel's stack pointer there.
pub ticks_from-Resumed :
    (s : System) (kernel_chunk : ℕ) (x : ℕ) (order : List ℕ) (cpu : Cpu) (f : InterruptFrame)
    (frames : List (Cpu × InterruptFrame))
    → IsTurnOrder s.tasks (x ∷ order)
    → length frames ≡ length order
    → (r : System × Registers) × (ticks_from kernel_chunk
          (isr_0x20_handler kernel_chunk cpu s f)
          frames
        ≡ some r)
      × Resumed x (last_cpu cpu frames) f r
ticks_from-Resumed s kernel_chunk x order cpu f frames o n =
    let (r1, run, t) = isr_0x20_handler-Ticked {s = s} kernel_chunk cpu f x order o in
    let (r2, run', done) =
      resumes r1 kernel_chunk cpu order x [] frames n t.turn (IsTurnOrder-NotIn x order o)
        t.resumed in
    (
      r2,
      ap (λ o. ticks_from kernel_chunk o frames) run ∙ run',
      record { current = done.current; registers = Resumes-frame t.saved done.registers },
    )
