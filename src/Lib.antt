-- ===== src/Lib.antt =====
-- A model of simple_microkernel, a small 32-bit kernel in C for the PC, and the theorems about it.
--
-- The program's parts and the files that model them. Each part has a file of its own name with the
-- definitions, one for each C function and with its name (less a prefix that repeats the name of
-- the part), and a directory with the proofs and the tests.
--
--   Pmm        src/memory/pmm/pmm.c: the bitmap of the physical blocks and its counters. Everything
--              else that allocates memory comes to it.
--   Kheap      src/memory/heap/kheap.c: kmallac and kfree, in whole blocks, with a table of the
--              allocations of more than one block. It works on Pmm.
--   Memory     src/memory/memory.c: memset, memcmp and memcpy. kzalloc uses them.
--   Paging     src/memory/paging/paging.c: page directories, whose tables are blocks of Pmm.
--   Task       src/task/task.c: the list of tasks. A task's struct comes from Kheap and its address
--              space from Paging; Task.System holds the globals of all three.
--   Scheduler  src/scheduler/scheduler.c, and isr_0x20_handler of src/idt/idt.c: the timer
--              interrupt saves the current task and resumes the next one of Task.
--   Idt        src/idt/idt.c: the interrupt descriptors and the commands of interrupt 0x80.
--   Gdt        src/gdt/gdt.c: the segment descriptors.
--   String     src/string/string.c.
--   PathParser src/fs/path_parser.c: the drive number and the parts of a path.
--   Disk       src/disk/disk.c and src/disk/streamer.c: reads of sectors and streams of bytes.
--   Fat16      src/fs/fat16/fat16.c: the allocation table, the chains of clusters and the reads of
--              clusters, through the streams of Disk.
--   FatVolume  src/fs/fat16/fat16.c: the header and the root directory, up to fat16_resolve.
--   FatNames   src/fs/fat16/fat16.c: the names of directory items.
--   FatDirectory  src/fs/fat16/fat16.c: the search for a path, and fat16_open.
--   FatFile    src/fs/fat16/fat16.c: fat16_read, fat16_seek and fat16_stat.
--   Vfs        src/fs/file.c: the tables of filesystems and of open files. A filesystem is the
--              record Filesystem of its functions; Vfs/Fat.antt fills it with those of fat16.c.
--              fopen, fread, fseek and fstat are in Vfs/Files.antt.
--   Process    src/task/process.c: the table of processes. A process is loaded with Vfs, gets its
--              task from Task, and its memory is mapped with Paging. Loading is in
--              Process/Load.antt.
--   Terminal   src/kernel.c: the terminal and the printing functions.
--   Isr80h     src/isr80h: the two system calls and their registration with Idt. They read the
--              memory of the task through Task/Access.antt and print with Terminal.
--   Base       what they share: Boolean tests, arrays, signed results, bits and machine words.
--
-- How the code is modelled. The globals of a part are the fields of a record, and a function that
-- writes them takes the record and returns the new one. An array or the memory is a function from
-- the index or the address. uint32_t arithmetic wraps (`% 2 ^ 32`); an address is a number, and 0
-- is the null pointer. An `int` result is an integer, and the error -1 is `minus_one`. The endless
-- loop of panic is `none`. Paging sees the memory as words and String and Memory as bytes; the
-- structs of tasks are records in a store, which is apart from the words of Paging.
--
-- Loops. A `for` loop is a recursion on the rounds that it has left. The loops of strlen and strcpy
-- end at a terminator: they have fuel, and any fuel above the length of the string is enough. The
-- loops of kernel_print_uint have fuel 11, since a 32-bit number has at most ten digits.
-- disk_streamer_read calls itself for 512 bytes fewer, total / 512 times at most, and the read of
-- clusters for a cluster fewer; these numbers are the rounds of their recursions. The loops over a
-- directory and over the bytes of a name end at a mark: they have fuel, any fuel above the number
-- of items or bytes is enough, and without a mark the result is `none`. The parts of a path are
-- read with as many rounds as there are parts, and one more.
--
-- Parameters. The drive is a function from a sector and a word to the word's value, and always
-- ready. The stack of disk_streamer_read is a memory of its own, since its buffer is not cleared.
-- The addresses of string literals and of the local array of the search are arguments.
--
-- What is not modelled: the assembly code (loads of control and segment registers, port accesses,
-- interrupt wrappers) except for task_return of src/task/task.asm, which is modelled by the
-- registers with which the task goes on; the timer chip, the boot code and kernel_main, which only
-- call the other parts, and the commented out heap of src/memory/heap/heap.c. A page that is
-- not present is no fault in the model, nor is a division by a cluster of no bytes. The bytes of the
-- memory and the words of the page tables are separate memories, and the structs with a store of
-- their own do not lie in either: a write through a wrong address does not reach
-- them.
pub mod Base
pub mod Memory
pub mod Pmm
pub mod PathParser
pub mod Gdt
pub mod Idt
pub mod Terminal
pub mod Kheap
pub mod Disk
pub mod Fat16
pub mod FatVolume
pub mod FatNames
pub mod FatDirectory
pub mod Vfs
pub mod Process
pub mod Isr80h
pub mod FatFile
pub mod Paging
pub mod Task
pub mod Scheduler
pub mod String
