-- ===== src/Task/Restore.antt =====
-- What copy_string_from_task leaves of the address space of the task.
use simple_microkernel.Base.{
  ℕ, ◌%◌, ◌^◌, ◌≤◌, ◌<◌, ◌≡◌, ◌≢◌, refl, ◌∙◌, ap, le→ltb, eq→==, ne→==, bit_or, ℤ, pos, is_negative,
}
use native.Mathlib.Decide.{ℕ_discrete}
use simple_microkernel.Memory.{Bytes}
use simple_microkernel.Kheap.{Heap, kzalloc}
use simple_microkernel.Paging.{Words, paging_get, paging_set}
use simple_microkernel.Paging.Entries.{
  IsDirectory, written-IsDirectory, paging_get-written, paging_get-paging_set,
}
use simple_microkernel.Paging.Ranges.{mapped_page, paging_map-page}
use simple_microkernel.Paging.Elsewhere.{InNoTable, page_elsewhere}
use simple_microkernel.Task.{System}
use simple_microkernel.Task.Access.{task_directory, finish_copy, copy_string_from_task}

-- The kernel's directory is current again, every page of the task is mapped as before, and neither the
-- tasks nor the allocations below the copy have changed.
pub record Restored (s : System) (kernel_chunk directory : ℕ) (h : Heap) (r : ℤ × System × Bytes)
    : Type 0 where
  pub done : r.0 ≡ pos 1
  pub kernel : r.1.current_directory ≡ s.memory kernel_chunk
  pub pages :
      (w : ℕ)
      → w % 4096 ≡ 0
      → w < 2 ^ 32
      → paging_get r.1.memory directory w ≡ paging_get s.memory directory w
  pub well_formed : IsDirectory r.1.memory directory
  pub tasks : r.1.tasks ≡ s.tasks
  pub heap : r.1.heap ≡ h

-- an entry that has been written, and then what stood there before
undone :
    (m : Words) (directory v flags w : ℕ)
    → IsDirectory m directory
    → v % 4096 ≡ 0
    → v < 2 ^ 32
    → w % 4096 ≡ 0
    → w < 2 ^ 32
    → paging_get
        (paging_set (mapped_page directory flags m v v) directory v (paging_get m directory v)).1
        directory
        w
      ≡ paging_get m directory w
undone m directory v flags w d a b x y =
    let d' = written-IsDirectory d v (bit_or v flags) a b in
    (paging_get-paging_set v (paging_get m directory v) w d' a b x y).2 ∙ elim (ℕ_discrete w v) [
      | yes same ↦ rw (eq→== w v same, same) refl
      | no other ↦
          rw (ne→== w v other)
            (paging_get-written d v (bit_or v flags) a b w x y ∙ rw (ne→== w v other) refl)
    ]

-- copy_string_from_task of at most 4096 characters succeeds, if it gets a block of memory, and takes the
-- entry back that it has put into the directory of the task: every page of the task is mapped as
-- before, and the directory of the kernel is current. The struct of the kernel's address space must lie
-- outside the tables.
pub copy_string_from_task-Restored :
    (kernel_chunk : ℕ) (s : System) (bytes : Bytes) (task virtual phys max : ℕ)
    → IsDirectory s.memory (task_directory s task)
    → InNoTable s.memory (task_directory s task) kernel_chunk
    → max ≤ 4096
    → (kzalloc s.heap bytes max).0 ≢ 0
    → (kzalloc s.heap bytes max).0 % 4096 ≡ 0
    → (kzalloc s.heap bytes max).0 < 2 ^ 32
    → Restored s kernel_chunk
        (task_directory s task)
        (kzalloc s.heap bytes max).1
        (copy_string_from_task kernel_chunk s bytes task virtual phys max)
unfolding copy_string_from_task finish_copy
copy_string_from_task-Restored kernel_chunk s bytes task virtual phys max d out small nz a b =
    let tmp = (kzalloc s.heap bytes max).0 in
    let directory = task_directory s task in
    let d' = written-IsDirectory d tmp (bit_or tmp 7) a b in
    let set = paging_get-paging_set tmp (paging_get s.memory directory tmp) tmp d' a b a b in
    rw
      (
        le→ltb 4096 max small,
        ne→== tmp 0 nz,
        paging_map-page directory 7 tmp tmp d a a b,
        ap is_negative set.0,
      )
      (record {
        done = refl;
        kernel = page_elsewhere directory 7 s.memory tmp tmp kernel_chunk b out;
        pages = λ w x y. undone s.memory directory tmp 7 w d a b x y;
        well_formed = set.1;
        tasks = refl;
        heap = refl;
      })
