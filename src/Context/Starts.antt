-- ===== src/Context/Starts.antt =====
-- What a new thread of kernel/thread.c does first: the switch to it, and the return from the trap that
-- it seems to come from.
use moonix.Base.{
  ℕ, ◌+◌, ◌-◌, ◌*◌, ◌^◌, ◌≤◌, ◌<◌, ◌≡◌, ap, ◌∙◌, arith, Bool, true, false, not, update,
}
use moonix.Context.{
  InterruptContext, ThreadContext, Hart, interrupt_size, thread_size, word, push_context_to_stack,
  new_kernel_thread_context, new_user_thread_context, switch_context, restore,
}
use moonix.Context.Bits.{user_status, kernel_status, user_status-set, kernel_status-set, and-fits}
use moonix.Context.Layout.{load-same, AreApart, apart-inside}
use moonix.Context.Frames.{AreWords, Pushed, push-Pushed}
use moonix.Context.Switches.{CanSwitch, switch-keeps, before-keeps, switch-Loaded}
use moonix.Context.Traps.{Restored, restore-Restored}

-- The stack at `top` of a thread whose context address is in `target` does not meet what the switch
-- writes.
pub record CanStart (self target top : ℕ) (h : Hart) : Type 0 where
  pub can : CanSwitch self target h
  pub stack : 384 ≤ top
  pub self_apart : AreApart self 8 (top - 384) 384
  pub target_apart : AreApart target 8 (top - 384) 384
  pub frame_apart : AreApart (h.x 2 - thread_size) thread_size (top - 384) 384

-- After the switch the hart goes on at `__restore`, which loads the interrupt context.
pub record Begins (tc : ThreadContext) (ic : InterruptContext) (top : ℕ) (h h1 : Hart)
    (memory : ℕ → ℕ) : Type 0 where
  pub scratch : h1.sscratch ≡ h.sscratch
  pub at_restore : h1.pc ≡ tc.ra
  pub satp : h1.satp ≡ tc.satp
  pub restored : Restored ic (top - 272) h1 (restore h1 memory)

start-Begins :
    (self target top : ℕ) (h : Hart) (memory : ℕ → ℕ) (tc : ThreadContext) (ic : InterruptContext)
    → CanStart self target top h
    → Pushed tc ic top memory
    → word memory target ≡ top - 384
    → Begins tc ic top h
        (switch_context self target h memory).0
        (switch_context self target h memory).1
start-Begins self target top h memory tc ic c pushed at =
    let room = c.stack in
    let frame = h.x 2 - thread_size in
    let near =
      λ (a n b : ℕ) (apart : AreApart a n (top - 384) 384) (low : top - 384 ≤ b)
          (high : b + 8 ≤ top - 384 + 384).
        apart-inside a n (top - 384) 384 b 8 apart low high in
    let loaded = switch-Loaded self target h memory (c.can) tc (top - 384) at (λ i less.
      let b = top - 384 + 8 * i in
      before-keeps self target h memory (c.can) b
        (near self 8 b (c.self_apart) (omega arith) (omega arith))
        (near frame thread_size b (c.frame_apart) (omega arith) (omega arith))
      ∙ pushed.thread i less) in
    let sp : (switch_context self target h memory).0.x 2 ≡ top - 272 = loaded.stack ∙ omega arith in
    record {
      scratch = (loaded.others).0;
      at_restore = loaded.pc;
      satp = loaded.satp;
      restored = restore-Restored ic (top - 272) _ _ sp (λ i pos less.
          let b = top - 272 + 8 * i in
          switch-keeps self target h memory (c.can) b
            (near self 8 b (c.self_apart) (omega arith) (omega arith))
            (near target 8 b (c.target_apart) (omega arith) (omega arith))
            (near frame thread_size b (c.frame_apart) (omega arith) (omega arith))
          ∙ pushed.interrupt i less);
    }

-- Memory keeps the two contexts as they were pushed.
Pushed-kept :
    (tc : ThreadContext) (ic : InterruptContext) (top : ℕ) (memory memory' : ℕ → ℕ)
    → 384 ≤ top
    → ((p : ℕ) → top - 384 ≤ p → p < top → memory' p ≡ memory p)
    → Pushed tc ic top memory
    → Pushed tc ic top memory'
Pushed-kept tc ic top memory memory' room kept pushed = record {
  thread = λ i less.
      load-same memory memory' (top - 384 + 8 * i) 8
        (λ p low high. kept p (omega arith) (omega arith))
      ∙ pushed.thread i less;
  interrupt = λ i less.
      load-same memory memory' (top - 272 + 8 * i) 8
        (λ p low high. kept p (omega arith) (omega arith))
      ∙ pushed.interrupt i less;
}

-- A thread whose contexts were pushed and kept begins with them.
thread-Begins :
    (self target top : ℕ) (h : Hart) (memory memory' : ℕ → ℕ) (tc : ThreadContext)
    (ic : InterruptContext)
    → AreWords ic tc
    → CanStart self target top h
    → ((p : ℕ) → top - 384 ≤ p → p < top → memory' p ≡ (push_context_to_stack tc ic top memory).1 p)
    → word memory' target ≡ (push_context_to_stack tc ic top memory).0
    → Begins tc ic top h
        (switch_context self target h memory').0
        (switch_context self target h memory').1
thread-Begins self target top h memory memory' tc ic words c kept at =
    let (address, pushed) = push-Pushed tc ic top memory words (c.stack) in
    start-Begins self target top h memory' tc ic c
      (Pushed-kept tc ic top _ memory' (c.stack) kept pushed) (at ∙ address)

-- The words of a context whose stack pointer is set.
pub framed-AreWords :
    (junk : InterruptContext) (tc : ThreadContext) (stack sstatus entry : ℕ)
    → AreWords junk tc
    → stack < 2 ^ 64
    → sstatus < 2 ^ 64
    → entry < 2 ^ 64
    → AreWords (record { x = update (junk.x) 2 stack; sstatus = sstatus; sepc = entry }) tc
framed-AreWords junk tc stack sstatus entry words s1 s2 s3 = record {
  x = λ i. let old = words.x i in ground arith;
  sstatus = s2;
  sepc = s3;
  ra = words.ra;
  satp = words.satp;
  s = words.s;
}

-- The registers with which a thread begins.
pub record Started (entry stack satp : ℕ) (in_user : Bool) (h : Hart) : Type 0 where
  pub pc : h.pc ≡ entry
  pub stack_pointer : h.x 2 ≡ stack
  pub tables : h.satp ≡ satp
  pub mode : h.user_mode ≡ in_user
  pub interruptible : h.interrupts ≡ true

module _ (restore_address : ℕ) (junk : InterruptContext) (junk_s : ℕ → ℕ)
    (entry stack top satp sstatus : ℕ) (memory memory' : ℕ → ℕ) (self target : ℕ) (h : Hart)
    (words : AreWords junk (record { ra = restore_address; satp = satp; s = junk_s }))
    (entry_word : entry < 2 ^ 64) (stack_word : stack < 2 ^ 64) (status_word : sstatus < 2 ^ 64)
    (start : CanStart self target top h) where
  abbrev tc : ThreadContext
  tc = record { ra = restore_address; satp = satp; s = junk_s }

  -- While the stack and the two context addresses do not meet what the switch writes, and the values that
  -- are stored are words: if memory still has the contexts that newUserThreadContext made, and
  -- `target` holds their address, then switchContext goes on at `__restore`, and `__restore`
  -- enters the program at its entry with its page table, in user mode, on its user stack, with
  -- interrupts on; the next trap finds the top of the kernel stack in `sscratch`.
  pub new_user_thread_context-Started :
      ((p : ℕ)
        → top - 384 ≤ p
        → p < top
        → memory' p
          ≡ (new_user_thread_context restore_address junk junk_s entry stack top satp sstatus
                memory).1
              p)
      → word memory' target
        ≡ (new_user_thread_context restore_address junk junk_s entry stack top satp sstatus
            memory).0
      → let (h1, after) = switch_context self target h memory' in
        (h1.pc ≡ restore_address)
        × Started entry stack satp true (restore h1 after)
        × ((restore h1 after).sscratch ≡ top)
  unfolding new_user_thread_context
  new_user_thread_context-Started kept at =
      let ic : InterruptContext = record {
        x = update (junk.x) 2 stack;
        sstatus = user_status sstatus;
        sepc = entry;
      } in
      let fits =
        framed-AreWords junk tc stack (user_status sstatus) entry words stack_word
          (and-fits _ _ (omega arith)) entry_word in
      let begins = thread-Begins self target top h memory memory' tc ic fits start kept at in
      let r = begins.restored in
      let (user, spie) = user_status-set sstatus in
      let room = start.stack in
      let whole : top - 272 + interrupt_size ≡ top = omega arith in
      (
        begins.at_restore,
        record {
          pc = r.pc;
          stack_pointer = r.x 2 (omega arith) (omega arith);
          tables = r.satp ∙ begins.satp;
          mode = r.user_mode ∙ ap not user;
          interruptible = r.interrupts ∙ spie;
        },
        r.sscratch ∙ rw user whole,
      )

  -- While the stack, which ends below 2 ^ 64, and the two context addresses do not meet what the switch
  -- writes, and the values that are stored are words: if memory still has the contexts that
  -- newKernelThreadContext made, and `target` holds their address, then switchContext goes on at
  -- `__restore`, and `__restore` enters the thread at its entry with its page table, in the
  -- kernel's mode, at the top of its stack, with interrupts on, and leaves `sscratch` as it was.
  pub new_kernel_thread_context-Started :
      top < 2 ^ 64
      → ((p : ℕ)
          → top - 384 ≤ p
          → p < top
          → memory' p
            ≡ (new_kernel_thread_context restore_address junk junk_s entry top satp sstatus
                  memory).1
                p)
      → word memory' target
        ≡ (new_kernel_thread_context restore_address junk junk_s entry top satp sstatus memory).0
      → let (h1, after) = switch_context self target h memory' in
        (h1.pc ≡ restore_address)
        × Started entry top satp false (restore h1 after)
        × ((restore h1 after).sscratch ≡ h.sscratch)
  unfolding new_kernel_thread_context
  new_kernel_thread_context-Started top_word kept at =
      let ic : InterruptContext = record {
        x = update (junk.x) 2 top;
        sstatus = kernel_status sstatus;
        sepc = entry;
      } in
      let fits =
        framed-AreWords junk tc top (kernel_status sstatus) entry words top_word
          (and-fits _ _ (omega arith)) entry_word in
      let begins = thread-Begins self target top h memory memory' tc ic fits start kept at in
      let r = begins.restored in
      let (kernel, spie) = kernel_status-set sstatus in
      (
        begins.at_restore,
        record {
          pc = r.pc;
          stack_pointer = r.x 2 (omega arith) (omega arith);
          tables = r.satp ∙ begins.satp;
          mode = r.user_mode ∙ ap not kernel;
          interruptible = r.interrupts ∙ spie;
        },
        r.sscratch ∙ rw kernel (begins.scratch),
      )
