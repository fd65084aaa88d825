-- ===== src/Process/Load.antt =====
-- src/task/process.c: the functions that load a program, over the functions of the filesystems.
use simple_microkernel.Base.{
  ℕ, ◌==◌, if◌then◌else◌, not, Option, some, none, ◌>>=◌, ℤ, pos, minus_one, not_positive,
  is_negative,
}
use simple_microkernel.FatFile.{FileStat}
use simple_microkernel.Vfs.{Filesystem, Literals}
use simple_microkernel.Vfs.Files.{fopen, fread, fstat}
use simple_microkernel.Process.{
  sizeof_process, Processes, allocate, write_process, process_init, process_get,
  process_get_free_slot, finish_load,
}

module _ (functions : ℕ → Filesystem) (rounds fuel : ℕ) (l : Literals) where
  -- process_load_binary; `f_stat` is what the local variable holds before the call of fstat
  unfoldable pub process_load_binary : FileStat → Processes → ℕ → ℕ → Option (ℤ × Processes)
  process_load_binary f_stat s filename process = do
    (fd, v) ← fopen functions rounds fuel l s.vfs filename l.r
    let opened = record s { vfs = v }
    let (res, stat) = fstat functions v fd f_stat
    let (ptr, t) = allocate opened stat.filesize
    let (count, w) = fread functions t.vfs ptr stat.filesize 1 fd
    let read = record t { vfs = w }
    let loaded =
        write_process read process (record (read.store process) { ptr = ptr; size = stat.filesize })
    some (
        if not_positive fd
        then (minus_one, opened)
        else (if not_positive res
            then (minus_one, opened)
            else (if ptr == 0
                then (minus_one, t)
                else (if not_positive count then (minus_one, read) else (pos 1, loaded)))))

  -- process_load_data
  unfoldable pub process_load_data : FileStat → Processes → ℕ → ℕ → Option (ℤ × Processes)
  unfolding process_load_binary
  process_load_data f_stat s filename process = process_load_binary f_stat s filename process

  -- process_load_for_slot, with the address of the new process
  unfoldable pub process_load_for_slot : FileStat → Processes → ℕ → ℕ → Option (ℤ × ℕ × Processes)
  unfolding process_load_data process_get process_init finish_load
  process_load_for_slot f_stat s filename slot =
      let (process, t) = allocate s sizeof_process in
      if not (process_get s (pos slot) == 0)
      then some (minus_one, 0, s)
      else (if process == 0 then some (minus_one, 0, t) else (do
        (res, u) ← process_load_data f_stat (process_init t process) filename process
        let (done, v) = finish_load u filename process slot
        some (
            if is_negative res
            then (minus_one, 0, u)
            else (done, if is_negative done then 0 else process, v))))

  -- process_load, once the slot has been found; the result is the process's slot
  unfoldable pub load_in : FileStat → Processes → ℕ → Option ℕ → Option (ℤ × ℕ × Processes)
  unfolding process_load_for_slot
  load_in f_stat s filename none = some (minus_one, 0, s)
  load_in f_stat s filename (some slot) = do
    (res, process, t) ← process_load_for_slot f_stat s filename slot
    some (if is_negative res then minus_one else pos slot, process, t)

  -- process_load
  unfoldable pub process_load : FileStat → Processes → ℕ → Option (ℤ × ℕ × Processes)
  unfolding load_in process_get_free_slot
  process_load f_stat s filename = load_in f_stat s filename (process_get_free_slot s)
