-- ===== src/Launch.antt =====
-- The making of threads in kernel/thread.c, and executeCPU of kernel/processor.c: over the heap, the
-- page frames, the ELF loader, the file system and the processor. Memory is indexed by physical
-- addresses, and a pointer of the kernel is the physical address behind it, as in `Paging`.
pub mod Stacks
pub mod Tests
use Prim.Native.Nat.{bit_or}
use moonix.Base.{
  ℕ, zero, suc, ◌+◌, ◌-◌, ◌*◌, ◌^◌, Bool, true, false, Option, none, some, List, [], ◌∷◌, Run, ok,
  panic, ◌>>=◌, update, ◌==◌, if◌then◌else◌,
}
use moonix.Context.{InterruptContext, new_kernel_thread_context, new_user_thread_context}
use moonix.Elf.{new_user_mapping}
use moonix.Files.{Image, Inode, type_dir, lookup}
use moonix.Files.Contents.{readall}
use moonix.Frames.{Frames}
use moonix.Heap.{BuddyTree}
use moonix.Heap.Kernel.{KernelHeap, kalloc, kfree}
use moonix.Paging.{Segment, load, user, readable, writable}
use moonix.Paging.Segments.{Symbols, map_framed_segment}
use moonix.Processor.{Processor, add_to_cpu, init_cpu, new_thread_pool}
use moonix.Scheduler.Interface.{Scheduler}
use moonix.Thread.{Thread, ThreadInfo, Process, File}

abbrev pub kernel_stack_size : ℕ
kernel_stack_size = 0x80000

abbrev pub user_stack_size : ℕ
user_stack_size = 0x80000

abbrev pub user_stack_offset : ℕ
user_stack_offset = 0xffff_ffff_0000_0000

-- The tree of the heap, and memory with its page frames.
pub record Store : Type 0 where
  pub tree : BuddyTree
  pub frames : Frames

-- Where the kernel's heap and its sections lie, the addresses of `__restore` and of `idleMain`, the
-- control registers that are read, and what the stack holds where a context or a process is declared.
pub record Setting : Type 0 where
  pub heap_base : ℕ
  pub symbols : Symbols
  pub restore : ℕ
  pub idle_main : ℕ
  pub satp : ℕ
  pub sstatus : ℕ
  pub junk : InterruptContext
  pub junk_s : ℕ → ℕ
  pub junk_files : ℕ → File
  pub junk_fds : ℕ → Bool

abbrev pub heap_of : Store → KernelHeap
heap_of st = record { tree = st.tree; memory = st.frames.memory }

abbrev pub with_heap : Store → KernelHeap → Store
with_heap st h = record { tree = h.tree; frames = record (st.frames) { memory = h.memory } }

abbrev pub with_memory : Store → (ℕ → ℕ) → Store
with_memory st memory = record st { frames = record (st.frames) { memory = memory } }

unfoldable pub new_kernel_stack : Setting → Store → Run (ℕ × Store)
new_kernel_stack k st = do
  (bottom, h) ← kalloc (k.heap_base) kernel_stack_size (heap_of st)
  ok (bottom, with_heap st h)

-- `for(i = 0; i < 3; i ++) p.fdOccupied[i] = 1`
abbrev pub first_fds : Setting → ℕ → Process
first_fds k satp = record {
  satp = satp;
  o_file = k.junk_files;
  fd_occupied = update (update (update (k.junk_fds) 0 true) 1 true) 2 true;
}

unfoldable pub new_kernel_thread : Setting → ℕ → Store → Run (Thread × Store)
unfolding new_kernel_stack
new_kernel_thread k entry st = do
  (bottom, st1) ← new_kernel_stack k st
  let (context, memory) =
      new_kernel_thread_context (k.restore) (k.junk) (k.junk_s) entry (bottom + kernel_stack_size)
        (k.satp) (k.sstatus) (st1.frames.memory)
  let t : Thread = record {
    context_addr = context;
    kstack = bottom;
    process = first_fds k (k.satp);
    wait = none;
  }
  ok (t, with_memory st1 memory)

-- `data` is the address of an ELF file; its entry stands 24 bytes behind its start.
unfoldable pub new_user_thread : Setting → ℕ → Store → Run (Thread × Store)
unfolding new_kernel_stack
new_user_thread k data_addr st = do
  (m, f1) ← new_user_mapping (k.symbols) data_addr (st.frames)
  let ustack_top = user_stack_offset + user_stack_size
  let segment : Segment = record {
    start_vaddr = user_stack_offset;
    end_vaddr = ustack_top;
    flags = bit_or (bit_or (bit_or 1 user) readable) writable;
  }
  f2 ← map_framed_segment m segment f1
  (kstack, st3) ← new_kernel_stack k (record st { frames = f2 })
  let entry_addr = load (st3.frames.memory) (data_addr + 24) 8
  let satp = bit_or (m.root_ppn) (8 * 2 ^ 60)
  let (context, memory) =
      new_user_thread_context (k.restore) (k.junk) (k.junk_s) entry_addr ustack_top
        (kstack + kernel_stack_size) satp (k.sstatus) (st3.frames.memory)
  let t : Thread = record {
    context_addr = context;
    kstack = kstack;
    process = first_fds k satp;
    wait = none;
  }
  ok (t, with_memory st3 memory)

-- The thread that starts the kernel; `process` is not set.
unfoldable pub new_boot_thread : Process → Thread
new_boot_thread process = record { context_addr = 0; kstack = 0; process = process; wait = none }

module _ (sch : Scheduler) where
  -- The file in a buffer of the heap, as a thread.
  unfoldable pub load_thread : Setting → Image → Inode → Store → Run (Thread × Store)
  unfolding new_user_thread
  load_thread k image inode st = do
    (buf, h) ← kalloc (k.heap_base) (inode.size) (heap_of st)
    memory ← readall image inode (h.memory) buf
    (t, st2) ← new_user_thread k buf (with_memory (with_heap st h) memory)
    ok (t, with_heap st2 (kfree (k.heap_base) buf (heap_of st2)))

  -- With whether a thread was started; a directory is reported and not executed.
  unfoldable pub execute_cpu :
      Setting → Image → Inode → ℕ → Processor sch × Store → Run (Bool × Processor sch × Store)
  unfolding load_thread
  execute_cpu k image inode host_tid (cpu, st) =
      if inode.kind == type_dir then ok (false, cpu, st) else (do
        (t, st1) ← load_thread k image inode st
        cpu1 ← add_to_cpu sch cpu (record t { wait = some host_tid })
        ok (true, cpu1, st1))

  -- `initThread`: the idle thread, and the shell. The code reads through a null pointer without `/bin/sh`.
  unfoldable pub init_thread :
      Setting
      → Image
      → (ℕ → ThreadInfo)
      → Processor sch
      → sch.State
      → Store
      → Run (Processor sch × Store)
  unfolding load_thread new_kernel_thread
  init_thread k image stale before s st = do
    let pool = new_thread_pool sch stale (sch.init s)
    (idle, st1) ← new_kernel_thread k (k.idle_main) st
    let cpu = init_cpu sch before idle pool
    found ← lookup 3 image none (47 ∷ 98 ∷ 105 ∷ 110 ∷ 47 ∷ 115 ∷ 104 ∷ [])
    inode ← elim found [ none ↦ panic | some b ↦ ok (image.inode b) ]
    (t, st2) ← load_thread k image inode st1
    cpu1 ← add_to_cpu sch cpu t
    ok (cpu1, st2)
