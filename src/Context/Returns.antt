-- ===== src/Context/Returns.antt =====
-- A thread that has been left by kernel/switch.asm goes on as it was, and so does a program that was
-- interrupted, by kernel/interrupt.asm.
use mathlib.Core.Path.{subst}
use moonix.Base.{
  ℕ, ◌+◌, ◌-◌, ◌*◌, ◌^◌, ◌≤◌, ◌<◌, ◌≡◌, sym, ap, ◌∙◌, arith, not, ◌==◌, if◌then◌else◌,
}
use moonix.Context.{
  InterruptContext, Hart, interrupt_word, thread_word, interrupt_size, thread_size, word,
  switch_context, save, restore, saved_context, s_register, is_set, sstatus_spp,
}
use moonix.Context.Layout.{
  load-same, AreApart, apart-inside, word-store_words, word-outside, word-store, word-store-outside,
}
use moonix.Context.Frames.{AreWords, thread_word-fits, interrupt_word-fits}
use moonix.Context.Switches.{CanSwitch, before-keeps, switch-Loaded}
use moonix.Context.Traps.{restore-Restored}

-- The registers of a hart are words.
pub record AreRegisters (h : Hart) : Type 0 where
  pub x : (i : ℕ) → h.x i < 2 ^ 64
  pub satp : h.satp < 2 ^ 64
  pub sstatus : h.sstatus < 2 ^ 64
  pub sepc : h.sepc < 2 ^ 64

registers-AreWords :
    (h : Hart)
    → AreRegisters h
    → AreWords (record { x = h.x; sstatus = h.sstatus; sepc = h.sepc }) (saved_context h)
registers-AreWords h r = record {
  x = r.x;
  sstatus = r.sstatus;
  sepc = r.sepc;
  ra = r.x 1;
  satp = r.satp;
  s = λ i. r.x (s_register i);
}

-- What a switch leaves in memory of the thread that it leaves.
module _ (self target : ℕ) (h : Hart) (memory : ℕ → ℕ) (can : CanSwitch self target h)
    (words : AreRegisters h) (self_frame : AreApart self 8 (h.x 2 - thread_size) thread_size) where
  abbrev frame : ℕ
  frame = h.x 2 - thread_size

  left-frame :
      (i : ℕ)
      → i < 14
      → word (switch_context self target h memory).1 (frame + 8 * i)
        ≡ thread_word (saved_context h) i
  unfolding switch_context
  left-frame i less =
      let target_frame = can.target_frame in
      word-store-outside _ target 0 (frame + 8 * i) (omega arith)
      ∙ word-store_words _ frame 14 (thread_word (saved_context h)) i less
          (thread_word-fits _ (saved_context h) i (registers-AreWords h words))

  left-address : word (switch_context self target h memory).1 self ≡ frame
  unfolding switch_context
  left-address =
      let fits = words.x 2 in
      let apart = can.apart in
      word-store-outside _ target 0 self (omega arith)
      ∙ word-outside _ frame 14 (thread_word (saved_context h)) self (omega arith)
      ∙ word-store memory self frame (omega arith)

  -- A thread that was switched away from, whose context address and frame have been kept in
  -- memory since, and to which any hart switches by the same address, goes on behind its call of
  -- `switchContext` with the stack pointer, the saved registers and the page table it had, if
  -- registers are words and the frames and context addresses that the two switches write do not meet.
  pub switch_context-back :
      (other : ℕ) (h2 : Hart) (memory2 : ℕ → ℕ)
      → CanSwitch other self h2
      → AreApart other 8 frame thread_size
      → AreApart (h2.x 2 - thread_size) thread_size frame thread_size
      → ((i : ℕ)
          → i < 14
          → word memory2 (frame + 8 * i)
            ≡ word (switch_context self target h memory).1 (frame + 8 * i))
      → word memory2 self ≡ word (switch_context self target h memory).1 self
      → let h3 = (switch_context other self h2 memory2).0 in
        (h3.pc ≡ h.x 1)
        × (h3.x 2 ≡ h.x 2)
        × (h3.satp ≡ h.satp)
        × ((n : ℕ) → n < 12 → h3.x (s_register n) ≡ h.x (s_register n))
  switch_context-back other h2 memory2 can2 apart1 apart2 kept at =
      let loaded =
        switch-Loaded other self h2 memory2 can2 (saved_context h) frame (at ∙ left-address)
          (λ i less.
            before-keeps other self h2 memory2 can2 (frame + 8 * i)
              (apart-inside other 8 frame thread_size (frame + 8 * i) 8 apart1 (omega arith)
                (omega arith))
              (apart-inside (h2.x 2 - thread_size) thread_size frame thread_size (frame + 8 * i) 8
                apart2 (omega arith) (omega arith))
            ∙ kept i less
            ∙ left-frame i less) in
      let room = can.room in (loaded.pc, loaded.stack ∙ omega arith, loaded.satp, loaded.s)

-- The stack on which a trap saves the registers.
abbrev pub trap_top : Hart → ℕ
trap_top h = if h.sscratch == 0 then h.x 2 else h.sscratch

kept-at :
    (h : Hart) (memory memory2 : ℕ → ℕ)
    → ((p : ℕ)
        → p < interrupt_size
        → memory2 ((save h memory).0 + p) ≡ (save h memory).1 ((save h memory).0 + p))
    → (p : ℕ) → (save h memory).0 ≤ p
    → p < (save h memory).0 + interrupt_size
    → memory2 p ≡ (save h memory).1 p
kept-at h memory memory2 kept p low high =
    let sp = (save h memory).0 in
    let place : sp + (p - sp) ≡ p = omega arith in
    subst (λ p'. memory2 p' ≡ (save h memory).1 p') place (kept (p - sp) (omega arith))

saved-word :
    (h : Hart) (memory : ℕ → ℕ)
    → AreRegisters h
    → (i : ℕ) → 0 < i
    → i < 34
    → word (save h memory).1 ((save h memory).0 + 8 * i)
      ≡ interrupt_word (record { x = h.x; sstatus = h.sstatus; sepc = h.sepc }) i
unfolding save
saved-word h memory words i pos less =
    let ic : InterruptContext = record { x = h.x; sstatus = h.sstatus; sepc = h.sepc } in
    let a = trap_top h - interrupt_size in
    let place : a + 8 * i ≡ a + 8 + 8 * (i - 1) = omega arith in
    let index : i - 1 + 1 ≡ i = omega arith in
    let fits =
      subst (λ j. interrupt_word ic j < 2 ^ 64) (sym index)
        (interrupt_word-fits ic (saved_context h) i (registers-AreWords h words)) in
    rw place (
      word-store_words memory (a + 8) 33 (λ j. interrupt_word ic (j + 1)) (i - 1) (omega arith)
        fits)
    ∙ ap (interrupt_word ic) index

scratch-back :
    (h h2 : Hart)
    → (is_set (h.sstatus) sstatus_spp ≡ (h.sscratch == 0))
    → interrupt_size ≤ trap_top h
    → h2.sscratch ≡ 0
    → (if is_set (h.sstatus) sstatus_spp
        then h2.sscratch
        else trap_top h - interrupt_size + interrupt_size)
      ≡ h.sscratch
scratch-back h h2 mode room clear = rw mode (ground arith)

-- A trap saves the registers of a program, user's or kernel's, on the stack that it finds; when the
-- handler has kept the context and gives back the stack pointer with `sscratch` 0, `__restore`
-- gives every register but `x0` back, with `sepc`, `sstatus`, the mode and `sscratch`. Registers are
-- words, the stack has room for a context, and SPP is clear exactly if `sscratch` holds a stack.
pub restore-save :
    (h h2 : Hart) (memory memory2 : ℕ → ℕ)
    → AreRegisters h
    → (is_set (h.sstatus) sstatus_spp ≡ (h.sscratch == 0))
    → interrupt_size ≤ trap_top h
    → h2.x 2 ≡ (save h memory).0
    → h2.sscratch ≡ 0
    → ((p : ℕ)
        → p < interrupt_size
        → memory2 ((save h memory).0 + p) ≡ (save h memory).1 ((save h memory).0 + p))
    → let h3 = restore h2 memory2 in
      ((i : ℕ) → 0 < i → i < 32 → h3.x i ≡ h.x i)
      × (h3.pc ≡ h.sepc)
      × (h3.sstatus ≡ h.sstatus)
      × (h3.user_mode ≡ not (h.sscratch == 0))
      × (h3.sscratch ≡ h.sscratch)
unfolding save
restore-save h h2 memory memory2 words mode room sp clear kept =
    let ic : InterruptContext = record { x = h.x; sstatus = h.sstatus; sepc = h.sepc } in
    let a = trap_top h - interrupt_size in
    let r = restore-Restored ic a h2 memory2 sp (λ i pos less.
      load-same (save h memory).1 memory2 (a + 8 * i) 8
        (λ p low high. kept-at h memory memory2 kept p (omega arith) (omega arith))
      ∙ saved-word h memory words i pos less) in
    (
      r.x,
      r.pc,
      r.sstatus,
      r.user_mode ∙ ap not mode,
      r.sscratch ∙ scratch-back h h2 mode room clear,
    )
