-- ===== src/Context/Tests.antt =====
-- Two stacks of 1000 and 5000 bytes, for kernel/thread.c and the two .asm files.
use moonix.Base.{ℕ, ◌<◌, ◌≡◌, refl, ◌∙◌, arith, inr, true, false}
use moonix.Paging.{store}
use moonix.Context.{
  InterruptContext, Hart, new_kernel_thread_context, new_user_thread_context, switch_context,
  restore, save, s_register, push_context_to_stack,
}
use moonix.Context.Layout.{store-outside, word-store}
use moonix.Context.Frames.{AreWords}
use moonix.Context.Switches.{CanSwitch}
use moonix.Context.Starts.{
  CanStart, Started, new_user_thread_context-Started, new_kernel_thread_context-Started,
}
use moonix.Context.Returns.{AreRegisters, switch_context-back, restore-save}

abbrev junk : InterruptContext
junk = record { x = λ i. 3; sstatus = 3; sepc = 3 }

abbrev blank : ℕ → ℕ
blank a = 0

-- On a stack that ends at 1000.
abbrev hart : Hart
hart = record {
  x = λ i. 1000;
  pc = 0;
  satp = 9;
  sscratch = 0;
  sstatus = 0x120;
  sepc = 77;
  user_mode = false;
  interrupts = true;
}

hart-AreRegisters : AreRegisters hart
hart-AreRegisters = record {
  x = λ i. omega arith;
  satp = omega arith;
  sstatus = omega arith;
  sepc = omega arith;
}

junk-AreWords : AreWords junk (record { ra = 55; satp = 66; s = λ n. 3 })
junk-AreWords = record {
  x = λ i. omega arith;
  sstatus = omega arith;
  sepc = omega arith;
  ra = omega arith;
  satp = omega arith;
  s = λ i. omega arith;
}

can : CanSwitch 8 16 hart
can = record { room = omega arith; apart = omega arith; target_frame = omega arith }

can_start : CanStart 8 16 5000 hart
can_start = record {
  can = can;
  stack = omega arith;
  self_apart = omega arith;
  target_apart = omega arith;
  frame_apart = omega arith;
}

-- The memory with the new contexts, and their address at 16.
abbrev user_memory : ℕ → ℕ
user_memory = store (new_user_thread_context 55 junk (λ n. 3) 4000 2000 5000 66 0 blank).1 16 8 4616

abbrev kernel_memory : ℕ → ℕ
kernel_memory = store (new_kernel_thread_context 55 junk (λ n. 3) 4000 5000 66 0 blank).1 16 8 4616

user_address : 4616 ≡ (new_user_thread_context 55 junk (λ n. 3) 4000 2000 5000 66 0 blank).0
unfolding new_user_thread_context push_context_to_stack
user_address = refl

kernel_address : 4616 ≡ (new_kernel_thread_context 55 junk (λ n. 3) 4000 5000 66 0 blank).0
unfolding new_kernel_thread_context push_context_to_stack
kernel_address = refl

new_user_thread_context-Started_example :
    ((switch_context 8 16 hart user_memory).0.pc ≡ 55)
    × Started 4000 2000 66 true
        (restore (switch_context 8 16 hart user_memory).0 (switch_context 8 16 hart user_memory).1)
    × ((restore
          (switch_context 8 16 hart user_memory).0
          (switch_context 8 16 hart user_memory).1).sscratch
        ≡ 5000)
new_user_thread_context-Started_example =
    new_user_thread_context-Started 55 junk (λ n. 3) 4000 2000 5000 66 0 blank user_memory 8 16 hart
      junk-AreWords (omega arith) (omega arith) (omega arith) can_start
      (λ p low high. store-outside _ 16 8 4616 p (inr (omega arith)))
      (word-store _ 16 4616 (omega arith) ∙ user_address)

new_kernel_thread_context-Started_example :
    ((switch_context 8 16 hart kernel_memory).0.pc ≡ 55)
    × Started 4000 5000 66 false (
        restore
          (switch_context 8 16 hart kernel_memory).0
          (switch_context 8 16 hart kernel_memory).1)
    × ((restore
          (switch_context 8 16 hart kernel_memory).0
          (switch_context 8 16 hart kernel_memory).1).sscratch
        ≡ 0)
new_kernel_thread_context-Started_example =
    new_kernel_thread_context-Started 55 junk (λ n. 3) 4000 2000 5000 66 0 blank kernel_memory 8 16
      hart junk-AreWords (omega arith) (omega arith) (omega arith) can_start (omega arith)
      (λ p low high. store-outside _ 16 8 4616 p (inr (omega arith)))
      (word-store _ 16 4616 (omega arith) ∙ kernel_address)

-- On the other stack.
abbrev other_hart : Hart
other_hart = record hart { x = λ i. 5000 }

can_back : CanSwitch 24 8 other_hart
can_back = record { room = omega arith; apart = omega arith; target_frame = omega arith }

abbrev left : ℕ → ℕ
left = (switch_context 8 16 hart blank).1

switch_context-back_example :
    ((switch_context 24 8 other_hart left).0.pc ≡ 1000)
    × ((switch_context 24 8 other_hart left).0.x 2 ≡ 1000)
    × ((switch_context 24 8 other_hart left).0.satp ≡ 9)
    × ((n : ℕ) → n < 12 → (switch_context 24 8 other_hart left).0.x (s_register n) ≡ 1000)
switch_context-back_example =
    switch_context-back 8 16 hart blank can hart-AreRegisters (omega arith) 24 other_hart left
      can_back (omega arith) (omega arith) (λ i less. refl) refl

-- A trap from the kernel.
abbrev trapped : Hart
trapped = record hart { x = λ i. 728 }

save_pointer : 728 ≡ (save hart blank).0
unfolding save
save_pointer = refl

restore-save_example :
    ((i : ℕ) → 0 < i → i < 32 → (restore trapped (save hart blank).1).x i ≡ 1000)
    × ((restore trapped (save hart blank).1).pc ≡ 77)
    × ((restore trapped (save hart blank).1).sstatus ≡ 0x120)
    × ((restore trapped (save hart blank).1).user_mode ≡ false)
    × ((restore trapped (save hart blank).1).sscratch ≡ 0)
restore-save_example =
    restore-save hart trapped blank (save hart blank).1 hart-AreRegisters refl (omega arith)
      save_pointer refl (λ p less. refl)
