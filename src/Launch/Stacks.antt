-- ===== src/Launch/Stacks.antt =====
-- What `newKernelThread` (kernel/thread.c) makes.
use moonix.Base.{
  ℕ, zero, suc, ◌+◌, ◌*◌, ◌-◌, ◌/◌, ◌^◌, ◌≤◌, ◌<◌, ◌≡◌, refl, ◌∙◌, arith, ◌⊎◌, true, none, Run, ok,
  panic, ◌>>=◌, update,
}
use moonix.Context.{InterruptContext, ThreadContext, new_kernel_thread_context}
use moonix.Context.Bits.{kernel_status, and-fits}
use moonix.Context.Frames.{AreWords, Pushed, push-Pushed, push-outside}
use moonix.Context.Starts.{framed-AreWords}
use moonix.Heap.Kernel.{KernelHeap, kalloc, kernel_heap_size, min_block_size}
use moonix.Heap.Invariant.{Taken}
use moonix.Heap.Kalloc.{IsHeap, Allocated, exhausted, allocated, run_bytes, kalloc-Allocated}
use moonix.Heap.{round_up}
use moonix.Launch.{
  Store, Setting, heap_of, with_heap, with_memory, kernel_stack_size, new_kernel_stack, first_fds,
  new_kernel_thread,
}
use moonix.Thread.{Thread}

-- The contexts of a new kernel thread.
abbrev pub first_interrupt : Setting → ℕ → ℕ → InterruptContext
first_interrupt k entry top = record {
  x = update (k.junk.x) 2 top;
  sstatus = kernel_status (k.sstatus);
  sepc = entry;
}

abbrev pub first_thread : Setting → ThreadContext
first_thread k = record { ra = k.restore; satp = k.satp; s = k.junk_s }

-- A new kernel thread, or the heap has no run of 8192 blocks left. Its stack is a run of the heap of
-- which nothing had been handed out, and that is handed out now, with its contexts at the top; no byte outside of the stack has changed; the heap keeps its invariant;
-- the first three descriptors are taken, and no thread waits for it.
pub data Made (k : Setting) (entry : ℕ) (st : Store) : Run (Thread × Store) → Type 0 where
  no_room : st.tree.longest 0 < 8192 → Made k entry st panic
  made :
      {t : Thread} {st' : Store}
      → (j : ℕ) → Taken 17 (st.tree.longest) (st'.tree.longest) j
      → t.kstack + kernel_heap_size ≡ k.heap_base + (j + 1) * kernel_stack_size
      → k.heap_base ≤ t.kstack
      → t.kstack + kernel_stack_size ≤ k.heap_base + kernel_heap_size
      → t.context_addr ≡ t.kstack + kernel_stack_size - 384
      → Pushed
          (first_thread k)
          (first_interrupt k entry (t.kstack + kernel_stack_size))
          (t.kstack + kernel_stack_size)
          (st'.frames.memory)
      → ((a : ℕ)
          → (a < t.kstack) ⊎ (t.kstack + kernel_stack_size ≤ a)
          → st'.frames.memory a ≡ st.frames.memory a)
      → IsHeap (heap_of st')
      → ((fd : ℕ) → fd < 3 → t.process.fd_occupied fd ≡ true)
      → (t.wait ≡ none) × (t.process.satp ≡ k.satp)
      → Made k entry st (ok (t, st'))

-- The values that are stored are words.
pub record IsSetting (k : Setting) : Type 0 where
  pub contexts : AreWords (k.junk) (first_thread k)
  pub sstatus : k.sstatus < 2 ^ 64
  pub heap : k.heap_base + kernel_heap_size < 2 ^ 64

stack_run : run_bytes kernel_stack_size ≡ kernel_stack_size
unfolding round_up
stack_run = refl

blocks_of_stack : round_up ((kernel_stack_size - 1) / min_block_size + 1) ≡ 8192
unfolding round_up
blocks_of_stack = refl

module _ (k : Setting) (entry : ℕ) (st : Store) (setting : IsSetting k)
    (word : entry < 2 ^ 64) where
  thread_of : Run (ℕ × KernelHeap) → Run (Thread × Store)
  thread_of call = (call >>= λ (bottom, h). ok (bottom, with_heap st h)) >>= λ (bottom, st1).
      let (context, memory) =
        new_kernel_thread_context (k.restore) (k.junk) (k.junk_s) entry (bottom + kernel_stack_size)
          (k.satp) (k.sstatus) (st1.frames.memory) in
      let t : Thread = record {
        context_addr = context;
        kstack = bottom;
        process = first_fds k (k.satp);
        wait = none;
      } in
      ok (t, with_memory st1 memory)

  call-Made :
      (call : Run (ℕ × KernelHeap))
      → Allocated (k.heap_base) kernel_stack_size (heap_of st) call
      → Made k entry st (thread_of call)
  unfolding thread_of new_kernel_thread_context
  call-Made _ (exhausted short) = no_room (omega (arith, blocks_of_stack, short))
  call-Made _ (allocated {addr} {h'} j run place low high fits zeros outside holds) =
      let top = addr + kernel_stack_size in
      let tc = first_thread k in
      let ic = first_interrupt k entry top in
      let length = stack_run in
      let heap = setting.heap in
      let words =
        framed-AreWords (k.junk) tc top (kernel_status (k.sstatus)) entry (setting.contexts)
          (omega arith) (and-fits _ _ (omega arith)) word in
      let (address, pushed) = push-Pushed tc ic top (h'.memory) words (omega arith) in
      let place' : addr + kernel_heap_size ≡ k.heap_base + (j + 1) * 8192 * min_block_size =
        rw blocks_of_stack at place in
      made j run (omega arith) low (omega arith) address pushed
        (λ a out.
          push-outside tc ic top (h'.memory) a (omega arith) (omega arith)
          ∙ outside a (omega arith))
        (record { sized = holds.sized; buddy = holds.buddy }) fds (refl, refl)
    where
      fds : (fd : ℕ) → fd < 3 → (first_fds k (k.satp)).fd_occupied fd ≡ true
      fds zero h = refl
      fds (suc zero) h = refl
      fds (suc (suc zero)) h = refl
      fds (suc (suc (suc fd))) h = absurd (omega arith)

  -- For a valid heap that ends below 2 ^ 64, and words as its other arguments: `newKernelThread` either
  -- finds no run of 8192 blocks, and panics, or it makes a thread with its contexts at the top of
  -- a stack of its own, a run of the heap of which nothing had been handed out and that is
  -- handed out now; the first three descriptors are taken, and no byte outside of the stack has
  -- changed.
  pub new_kernel_thread-Made : IsHeap (heap_of st) → Made k entry st (new_kernel_thread k entry st)
  unfolding new_kernel_thread thread_of new_kernel_stack
  new_kernel_thread-Made holds = call-Made (kalloc (k.heap_base) kernel_stack_size (heap_of st)) (
      kalloc-Allocated (k.heap_base) kernel_stack_size (heap_of st) holds (omega arith)
        (omega arith))
