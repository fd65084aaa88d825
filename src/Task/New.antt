-- ===== src/Task/New.antt =====
-- task_new: a new task with an address space of its own stands at the end of the list.
use simple_microkernel.Base.{
  ℕ, ◌+◌, ◌/◌, ◌%◌, ◌^◌, ◌≤◌, ◌<◌, ◌≡◌, ◌≢◌, refl, sym, ◌∙◌, ap, List, [], ◌∷◌, ◌++◌, update_self,
  eq→==, ne→==, pos, bit_or, arith,
}
use simple_microkernel.Pmm.{Pmm, memory_map_test}
use simple_microkernel.Pmm.Valid.{IsValid}
use simple_microkernel.Kheap.{Heap, kmallac}
use simple_microkernel.Kheap.Valid.{HeapIsValid}
use simple_microkernel.Kheap.Small.{SmallAllocated, kmallac-SmallAllocated}
use simple_microkernel.Paging.{Paging, paging_get, new_4gb}
use simple_microkernel.Paging.Entries.{IsDirectory}
use simple_microkernel.Paging.Identity.{new_4gb-MapsItself}
use simple_microkernel.Task.{
  Task, Tasks, System, paging_of, with_paging, write_task, initial_registers, initial_task,
  finish_init, task_init, append_task, finish_new, clear_words, task_new,
}
use simple_microkernel.Task.List.{
  last_or, NotIn, IsTaskList, Linked-update, NotIn-last, last_or-append, joined-new, Linked-joined,
}

-- A struct outside the list whose pointers are 0 is appended to the list; its other fields stay.
pub record Appended (t : Tasks) (xs : List ℕ) (a : ℕ) (t' : Tasks) : Type 0 where
  pub listed : IsTaskList t' (xs ++ a ∷ [])
  pub page_directory : (t'.store a).page_directory ≡ (t.store a).page_directory
  pub registers : (t'.store a).registers ≡ (t.store a).registers
  pub process : (t'.store a).process ≡ (t.store a).process

-- the current task after an append: a task that joins an empty list becomes current
abbrev pub current_after : List ℕ → ℕ → ℕ → ℕ
current_after [] current a = a
current_after (x ∷ xs) current a = current

append-Appended :
    {t : Tasks} (xs : List ℕ) (a : ℕ)
    → IsTaskList t xs
    → a ≢ 0
    → NotIn a xs
    → (t.store a).next ≡ 0
    → (t.store a).prev ≡ 0
    → Appended t xs a (append_task t a)
      × ((append_task t a).current_task ≡ current_after xs t.current_task a)
unfolding append_task
append-Appended [] a l nonzero fresh n p = rw (eq→== _ 0 l.head) (
  record {
    listed = record { head = refl; tail = refl; linked = (nonzero, p, n, tt, tt) };
    page_directory = refl;
    registers = refl;
    process = refl;
  },
  refl,
)
append-Appended {t} (x ∷ xs) a l nonzero fresh n p =
    let apart : last_or x xs ≢ a = λ e. NotIn-last a x xs fresh.0 fresh.1 (sym e) in
    let new = joined-new t.store a nonzero n (last_or x xs) apart in
    rw (l.tail, ne→== t.task_head 0 (λ e. l.linked.0 (sym l.head ∙ e)))
      (
        record {
          listed = record {
            head = l.head;
            tail = sym (last_or-append x a xs);
            linked = Linked-joined t.store a nonzero n 0 x xs l.linked fresh;
          };
          page_directory = ap Task.page_directory new;
          registers = ap Task.registers new;
          process = ap Task.process new;
        },
        refl,
      )

-- What task_new has made of the system `s`, whose list is `xs`.
pub record Created (s : System) (xs : List ℕ) (process : ℕ) (r : ℕ × System) : Type 0 where
  pub address : r.0 ≢ 0
  pub listed : IsTaskList r.1.tasks (xs ++ r.0 ∷ [])
  pub current : r.1.tasks.current_task ≡ current_after xs s.tasks.current_task r.0
  pub registers : (r.1.tasks.store r.0).registers ≡ initial_registers
  pub owner : (r.1.tasks.store r.0).process ≡ process
  pub well_formed : IsDirectory r.1.memory (r.1.memory (r.1.tasks.store r.0).page_directory)
  pub identity :
      (v : ℕ)
      → v % 4096 ≡ 0
      → v < 2 ^ 32
      → paging_get r.1.memory (r.1.memory (r.1.tasks.store r.0).page_directory) v ≡ bit_or v 5
  pub valid : IsValid r.1.heap.pmm
  pub free : r.1.heap.pmm.free_blocks + 1027 ≡ s.heap.pmm.free_blocks

-- the blocks that hold the structs of the list are in use
abbrev pub InUsedBlocks : Pmm → List ℕ → Type 0
InUsedBlocks p [] = Unit
InUsedBlocks p (x ∷ xs) = (memory_map_test p (x / 4096) ≡ 1) × InUsedBlocks p xs

NotIn-of_free :
    (p : Pmm) (a : ℕ) (xs : List ℕ)
    → memory_map_test p (a / 4096) ≡ 0
    → InUsedBlocks p xs
    → NotIn a xs
NotIn-of_free p a [] f u = tt
NotIn-of_free p a (x ∷ xs) f (u, us) = (
  λ e. absurd (omega (arith, ap (λ (y : ℕ). memory_map_test p (y / 4096)) e)),
  NotIn-of_free p a xs f us,
)

finish_init-ok :
    (s : System) (task process : ℕ) (r : ℕ × Paging)
    → r.0 ≢ 0
    → finish_init s task process r ≡ (
      pos 0,
      record (with_paging s r.1) { tasks = write_task s.tasks task (initial_task r.0 process) },
    )
unfolding finish_init
finish_init-ok s task process r ne = rw (ne→== r.0 0 ne)

-- the system after kzalloc has returned
abbrev cleared : System → ℕ × Heap → System
cleared s a = record s { heap = a.1; memory = clear_words s.memory a.0 16 }

module _ {s : System} {xs : List ℕ} (process : ℕ) (l : IsTaskList s.tasks xs)
    (u : InUsedBlocks s.heap.pmm xs) where
  init-Created :
      {k : ℕ} {a : ℕ × Heap}
      → SmallAllocated s.heap k a
      → 1026 ≤ a.1.pmm.free_blocks
      → Created s xs process (finish_new a.0 (task_init (cleared s a) a.0 process))
  unfolding task_init finish_new
  init-Created {k} {a} sm enough =
      let space =
        new_4gb-MapsItself (paging_of (cleared s a)) 5 sm.valid.pmm_valid enough (omega arith) in
      let r : ℕ × Paging = new_4gb (paging_of (cleared s a)) 5 in
      let v = initial_task r.0 process in
      let struct = update_self s.tasks.store a.0 v in
      let fresh =
        NotIn-of_free s.heap.pmm a.0 xs
          (ap (memory_map_test s.heap.pmm) (omega (arith, sm.block.address)) ∙ sm.block.first.free)
          u in
      let written : IsTaskList (write_task s.tasks a.0 v) xs = record {
        head = l.head;
        tail = l.tail;
        linked = Linked-update s.tasks.store a.0 v 0 xs fresh l.linked;
      } in
      let nonzero : a.0 ≢ 0 = omega (arith, sm.block.address, sm.block.not_reserved) in
      let (app, current) =
        append-Appended xs a.0 written nonzero fresh (ap Task.next struct) (ap Task.prev struct) in
      let chunk = app.page_directory ∙ ap Task.page_directory struct in
      rw (finish_init-ok (cleared s a) a.0 process r space.chunk) (record {
        address = nonzero;
        listed = app.listed;
        current = current;
        registers = app.registers ∙ ap Task.registers struct;
        owner = app.process ∙ ap Task.process struct;
        well_formed = rw chunk space.well_formed;
        identity = rw chunk space.identity;
        valid = space.valid;
        free = omega (arith, space.free, sm.block.free);
      })

-- task_new returns the address of a new struct, which stands at the end of the list with the
-- initial registers and the given process; its page directory is well formed and maps every page to
-- itself for user access. It takes 1027 blocks, and the first task becomes the current one. The
-- blocks must be free, and the structs of the list must lie in used blocks.
pub task_new-Created :
    {s : System} {xs : List ℕ} (process : ℕ)
    → HeapIsValid s.heap
    → IsTaskList s.tasks xs
    → InUsedBlocks s.heap.pmm xs
    → 1027 ≤ s.heap.pmm.free_blocks
    → Created s xs process (task_new s process)
unfolding task_new
task_new-Created {s} process v l u f =
    let (k, sm) = kmallac-SmallAllocated 64 v (omega arith) (omega arith) in
    rw (ne→== (kmallac s.heap 64).0 0 (omega (arith, sm.block.address, sm.block.not_reserved)))
      (init-Created process l u sm (omega (arith, sm.block.free)))
