-- ===== src/Task/Access.antt =====
-- src/task/task.c: the functions that read the memory of a task in its own address space. A virtual
-- address leads to the physical one that the entry of its page names; the page must be present.
-- The bytes and the words of the page tables are separate memories, so that the buffer which is
-- zeroed and copied does not overlap a table.
use simple_microkernel.Base.{
  ℕ, zero, suc, ◌+◌, ◌-◌, ◌*◌, ◌/◌, ◌%◌, ◌==◌, if◌then◌else◌, ltb, update, add32, bit_or, ℤ, pos,
  minus_one, is_negative,
}
use simple_microkernel.Memory.{Bytes}
use simple_microkernel.String.{strncpy}
use simple_microkernel.Kheap.{kzalloc, kfree}
use simple_microkernel.Paging.{
  Words, paging_get, paging_set, paging_map, pte_present, pte_writeable, pte_access_from_all,
}
use simple_microkernel.Task.{Tasks, System}

-- the physical address that the processor finds for `a` in the tables of a directory
abbrev pub translate : Words → ℕ → ℕ → ℕ
translate m directory a = paging_get m directory (a - a % 4096) / 4096 * 4096 + a % 4096

-- strncpy in an address space, from character `i` on, with the rounds that its loop has left
unfoldable pub strncpy_in : (ℕ → ℕ) → ℕ → Bytes → ℕ → ℕ → ℕ → Bytes
strncpy_in physical zero m dest src i = update m (physical (add32 dest i)) 0
strncpy_in physical (suc rounds) m dest src i =
    let c = m (physical (add32 src i)) in
    let rest = strncpy_in physical rounds (update m (physical (add32 dest i)) c) dest src (suc i) in
    if c == 0 then update m (physical (add32 dest i)) 0 else rest

-- task_current
abbrev pub task_current : Tasks → ℕ
task_current t = t.current_task

-- the directory of a task
abbrev pub task_directory : System → ℕ → ℕ
task_directory s task = s.memory (s.tasks.store task).page_directory

-- task_get_stack_item, which returns to the directory of the kernel
unfoldable pub task_get_stack_item : ℕ → System → ℕ → ℕ → ℕ × System
task_get_stack_item kernel_chunk s task index =
    let sp_ptr = (s.tasks.store task).registers.esp in
    (
      s.memory (translate s.memory (task_directory s task) (add32 sp_ptr (4 * index))),
      record s { current_directory = s.memory kernel_chunk },
    )

-- the end of copy_string_from_task, with the address space that maps `tmp` to itself
unfoldable pub finish_copy : ℕ → System → Bytes → ℕ → ℕ → ℕ → ℕ → ℕ → ℕ → ℤ × System × Bytes
unfolding strncpy_in
finish_copy kernel_chunk s bytes directory tmp old_entry virtual phys max =
    let copied = strncpy_in (translate s.memory directory) (max - 1) bytes tmp virtual 0 in
    let (res, words) = paging_set s.memory directory tmp old_entry in
    let t = record s { memory = words; current_directory = s.memory kernel_chunk } in
    if is_negative res
    then (minus_one, record t { heap = kfree t.heap tmp }, copied)
    else (pos 1, t, strncpy copied phys tmp (pos max))

-- copy_string_from_task, with the bytes that `phys` and the heap lie in
unfoldable pub copy_string_from_task : ℕ → System → Bytes → ℕ → ℕ → ℕ → ℕ → ℤ × System × Bytes
unfolding finish_copy
copy_string_from_task kernel_chunk s bytes task virtual phys max =
    let (tmp, h, m) = kzalloc s.heap bytes max in
    let directory = task_directory s task in
    let old_entry = paging_get s.memory directory tmp in
    let flags = bit_or (bit_or pte_writeable pte_present) pte_access_from_all in
    let mapped = (paging_map s.memory directory tmp tmp flags).1 in
    let t = record s { heap = h; memory = mapped } in
    if ltb 4096 max
    then (minus_one, s, bytes)
    else (if tmp == 0
        then (minus_one, record s { heap = h }, m)
        else finish_copy kernel_chunk t m directory tmp old_entry virtual phys max)
