-- ===== src/Lib.antt =====
-- MariobrOS: a small operating system for 32-bit x86 machines. This library models parts of its
-- kernel, in src/, and states what makes them correct.
--
-- Base, with Base/Tests, Base/Lists and Base/Bits: numbers, Boolean tests, arrays, and bits of a
-- word. A u_int32 is a native number, with its wrap-around written out as `% 2 ^ 32`.
-- Math: src/math.c and src/utils.c, the roundings of sizes.
-- Bitset: src/bitset.c, sets of numbers in an array of 32-bit words. Bitset/Words is about one
-- word, Bitset/Access about set_bit and get_bit, Bitset/Search and Bitset/Loops about the searches.
-- LinkedList: src/list.c on the list of the values; the storage of its cells is the allocator's.
-- Fifo: the queues of src/queue.c as their users see them.
-- Process, Scheduler, Syscall: src/process.c, src/scheduler.c and src/syscall.c. A `Sched` is
-- `scheduler_state_t` with the programs that the shell started, and with what was freed, as a log.
-- The process calls act on it one by one, each with interrupts held off as the code has it; they
-- meet through the process table only. Scheduler/Select and Scheduler/Fair are about
-- `select_new_process`; Syscall/Effect and Syscall/Orphans follow the table through the helpers;
-- Syscall/Exit, Syscall/Wait and Syscall/Fork are about the invariant of Syscall/Invariant, and
-- Syscall/Ending, Syscall/Reaping, Syscall/Spawning and Syscall/Rendezvous about outcomes.
-- Queue: src/queue.c, the ring of cells on a heap, with Queue/Refines against Fifo.
-- Paging: src/paging.c, page directories of two levels over a Bitset of the frames in use.
-- Paging/Translation is about directories, Paging/Requests about requests and releases.
-- Paging/Spaces has whole address spaces and Paging/Forks `fork_page_dir`, which copies frames in the
-- bytes of the physical memory; Paging/Cloning and Paging/Creation are about copies and new
-- processes, with Paging/Passes about the searches of a clone. Paging/Install has `paging_install`,
-- with Paging/Identity about its loop and Paging/Start about what it leaves. The copy of a directory
-- is allocated on the kernel's heap, which can grow in the directory: what an allocation maps there is
-- a parameter. Two searches are enough fuel for a
-- clone when no allocation makes a table, as the kernel makes them all first; and as many rounds as
-- there are pages for the loops over them.
-- Files: src/fs_inter.c, the table of file descriptors. It uses src/filesystem.c through the
-- interface `FileSystem`; laws of the interface are hypotheses where they are needed.
-- Kernel: the rest of src/scheduler.c, with `syscall` of src/syscall.c. A `Machine` has the frame
-- of the interrupted process and the malloc states that the switches exchange. Kernel/Choice is
-- about what selection leaves, Kernel/Switching about the handlers, Kernel/Creation about new
-- processes. The calls that are not about processes are a parameter of `syscall`.
-- Printer: src/printer.c, the text screen. The bytes of the framebuffer are a function of their
-- offset, so that a write past the screen can be told.
-- Text: src/string.c, numerals, comparison and splitting of strings. Text/Numerals and Text/Signs read
-- the numerals back; Text/Compare is about str_cmp; Text/Format has `format_to_string`. A number of
-- 32 bits has at most 32 digits, the fuel of the loop that counts them.
-- Memory: src/memory.c, and numbers in arrays of bytes. Disk: src/ata_pio.c, the transfers between
-- a buffer and the bytes of the drive, which always succeed.
-- Malloc: src/malloc.c, a heap on the bytes of the memory. Malloc/Extension has the growth by pages,
-- with the directories of Paging, and Malloc/Allocation `mem_alloc_aligned`. Malloc/Headers is about
-- the two headers of a block, Malloc/Pointers about the addresses that are handed out, and
-- Malloc/FreeList, Malloc/Removal and Malloc/Search about the list of the free blocks. The search
-- has fuel; one more than the number of free blocks is enough. Clients do not use this model: an
-- allocation elsewhere is a fresh object.
-- Filesystem: src/filesystem.c, an ext2 volume on those bytes. Filesystem/Volume has its state and
-- the inodes, Filesystem/Groups the bitmaps, a Bitset over the buffer `std_buf`, Filesystem/Contents
-- and Filesystem/Growth the blocks of a file, Filesystem/Directories the entries of a directory and
-- paths, Filesystem/Files and Filesystem/Install the operations on top. Filesystem/Inodes and
-- Filesystem/RoundTrip are about what is read back, Filesystem/Bitmaps, Filesystem/Allocation and
-- Filesystem/Overrun about `allocate_block`, Filesystem/Lookup about names. `std_buf` and `std_inode`
-- are shared by all of them as in the code.
-- A directory has at most as many entries as its block has bytes, which is the fuel of the loops
-- over entries; `rm_dir` has the number of its rounds as an argument.
-- Descriptors: src/gdt.c and src/idt.c, the encodings of segments and gates; Descriptors/Decoding is
-- about what the processor reads there.
-- Elf: src/elf.c, which writes the segments of a file to the pages of a new process. Elf/Views is
-- about what the process reads there, Elf/Segments about a segment, Elf/Image about a file. The loop
-- over the segments has 2 ^ 16 rounds of fuel, one more than the count of 16 bits can be.
-- Keyboard: src/keyboard.c. A handler is a function of the scancode; what it writes is a list of
-- events, which the screen or the shell carries out. Ctrl-C runs `kill_family` of Syscall.
--
-- Loops are structural recursion on the rounds that are left, except `kill_family`, which has fuel
-- for the depth of a family: 128 processes bound it where the parents form a tree; and the loop of
-- `write`, whose fuel is one more than the number of bytes, since a round writes a byte or ends it.
-- Not modelled: the input and output ports, the switch of page directories around a handler, the
-- messages to the log, and the storage behind an allocation. The parts of src/ that are not named
-- above are not modelled either.
pub mod Base
pub mod Math
pub mod Bitset
pub mod LinkedList
pub mod Elf
pub mod Fifo
pub mod Queue
pub mod Process
pub mod Scheduler
pub mod Syscall
pub mod Kernel
pub mod Paging
pub mod Files
pub mod Text
pub mod Printer
pub mod Keyboard
pub mod Memory
pub mod Descriptors
pub mod Disk
pub mod Filesystem
pub mod Malloc
