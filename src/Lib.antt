-- ===== src/Lib.antt =====
-- Moonix is a small teaching kernel for 64-bit RISC-V with a few user programs. This library
-- models its kernel and proves what its parts promise each other.
--
-- The parts and the files that model them (paths from the root of the repository):
--   Base         arrays, lists, tests, and `Run`: how a kernel call ends (it returns, it panics, or
--                a loop of the model uses up its fuel).
--   Scheduler    kernel/rrscheduler.c: the ring of runnable threads. Scheduler.Ring relates the
--                ring to a list; Scheduler.Interface is `Scheduler` of kernel/thread.h, five
--                operations with laws, which `rr` fills.
--   Thread       kernel/thread.h, kernel/thread.c, kernel/file.h: threads and file descriptors.
--   Processor    kernel/threadpool.c and kernel/processor.c: slots, and the steps of the processor
--                (dispatch, tick, yield, exit, wake-up, addition) over any scheduler with the laws.
--                Processor.Reach has their sequences.
--   Frames       kernel/memory.c: the segment tree of free pages, and allocFrame and deallocFrame.
--   Heap         kernel/heap.c: the buddy tree (Bits, Nodes, Invariant, Runs, Climb, Alloc, Free, Undo,
--                Lands, Restore, Init) and kalloc and kfree over it (Kernel, Kalloc).
--                Heap.Interface is what clients with small objects rely on,
--                and Objects proves it of kalloc and kfree.
--   Queue        kernel/queue.c, kernel/queue.h: linked queues whose nodes come from that interface.
--   Condition    kernel/condition.c, kernel/stdin.c: condition variables and standard input, over
--                Queue and Processor.
--   Strings      kernel/string.c (user/string.c is the same): strlen and strcmp.
--   Printf       kernel/printf.c (user/io.c is the same over a system call).
--   Paging       kernel/mapping.c: page tables of three levels over Frames.
--   Elf          kernel/elf.c: the address space of a program, over Paging.
--   Files        kernel/fs.c: lookup (Walk, Leads), readall, ls and getInodePath (Paths) on the file system image.
--   Builder      mkfs/mksfs.c: the program that makes the image from a directory of the host (Blocks,
--                Bitmap, Growth, Copies, Regular, Entries), and what Files reads back (Trees, Finds,
--                Whole).
--   Context      kernel/context.h, the contexts of kernel/thread.c, kernel/switch.asm and
--                kernel/interrupt.asm: a new thread's first frames (Bits, Layout, Frames), the switch
--                (Switches) and the trap (Traps), how a thread starts (Starts) and goes on (Returns).
--   Launch       the making of threads in kernel/thread.c, and executeCPU of kernel/processor.c, over
--                Heap, Paging, Elf, Files, Context and Processor.
--   Syscall      kernel/syscall.c and the handlers of kernel/interrupt.c over all of these: open, close
--                and cd (Directories), and the keyboard (Keyboard).
--   Shell        user/sh.c: the line editor (Editor) and the commands (Commands, Meaning).
--
-- State is passed explicitly, a pointer is a number, memory is a function from addresses to
-- bytes, and an array is a function from indices. Words wrap around where the source's do. The
-- kernel runs with interrupts off, so a call is one step; a switch of threads takes the end of
-- the stack as its argument `sp`.
--
-- Bounds and fuel: the loops of the heap climb from node `i` with fuel `i`, since a parent has a
-- smaller number, and search down with fuel for the number of blocks, which exceeds the height of
-- the tree. `printint` has 33 rounds for a word of 32 bits. `lookup` needs one round for each name
-- and one more; `strlen` one for each byte and one more. getInodePath needs one round for each level
-- and one more, and has 257 in sysPwd: a path of 256 levels does not fit its buffer. `lookup` in a
-- system call has one round more than the path has characters, which are at least as many as its
-- names. The trees of Frames and the rounds of the scheduler are bounded in the same way.
--
-- Not modelled: the start-up code, the control registers that no context has, devices and the timer,
-- firmware calls, whose results are arguments, and user/malloc.c, a copy of the kernel heap.
-- `kfree` of a kernel stack is recorded by Processor, not carried out. A system call that puts its
-- thread to sleep is one step of the processor. In Queue and Condition memory is that of the nodes
-- only, and kalloc and kfree are used through Heap.Interface, which Heap.Objects fills. In Files
-- the image is given as inodes, entries and bytes by block number; in Builder what is stored in one
-- of these views changes the others.
pub mod Base
pub mod Builder
pub mod Condition
pub mod Context
pub mod Elf
pub mod Files
pub mod Frames
pub mod Heap
pub mod Launch
pub mod Paging
pub mod Printf
pub mod Processor
pub mod Queue
pub mod Scheduler
pub mod Shell
pub mod Strings
pub mod Syscall
pub mod Thread
