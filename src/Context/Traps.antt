-- ===== src/Context/Traps.antt =====
-- What the two halves of kernel/interrupt.asm save and restore.
use moonix.Base.{
  ℕ, ◌+◌, ◌*◌, ◌<◌, ◌≡◌, refl, ◌∙◌, arith, true, false, not, ltb, ◌==◌, if◌then◌else◌,
}
use moonix.Context.{
  InterruptContext, Hart, interrupt_word, interrupt_size, word, restore, is_set, sstatus_spp,
  sstatus_spie,
}

-- The registers that `__restore` loads from the context at `a`.
pub record Restored (ic : InterruptContext) (a : ℕ) (h h' : Hart) : Type 0 where
  pub pc : h'.pc ≡ ic.sepc
  pub x : (i : ℕ) → 0 < i → i < 32 → h'.x i ≡ ic.x i
  pub sstatus : h'.sstatus ≡ ic.sstatus
  pub satp : h'.satp ≡ h.satp
  pub user_mode : h'.user_mode ≡ not (is_set (ic.sstatus) sstatus_spp)
  pub interrupts : h'.interrupts ≡ is_set (ic.sstatus) sstatus_spie
  pub sscratch :
      h'.sscratch ≡ (if is_set (ic.sstatus) sstatus_spp then h.sscratch else a + interrupt_size)

interrupt_word-x : (ic : InterruptContext) (i : ℕ) → i < 32 → interrupt_word ic i ≡ ic.x i
interrupt_word-x ic i h = let low : ltb i 32 ≡ true = ground arith in rw low refl

pub restore-Restored :
    (ic : InterruptContext) (a : ℕ) (h : Hart) (memory : ℕ → ℕ)
    → h.x 2 ≡ a
    → ((i : ℕ) → 0 < i → i < 34 → word memory (a + 8 * i) ≡ interrupt_word ic i)
    → Restored ic a h (restore h memory)
unfolding restore
restore-Restored ic a h memory sp words =
    let s1 : word memory (a + 8 * 32) ≡ ic.sstatus = words 32 (omega arith) (omega arith) in
    let s2 : word memory (a + 8 * 33) ≡ ic.sepc = words 33 (omega arith) (omega arith) in
    rw (sp, s1, s2)
      (record {
        pc = refl;
        x = λ i pos low.
            let not_zero : i == 0 ≡ false = ground arith in
            rw not_zero (words i pos (omega arith) ∙ interrupt_word-x ic i low);
        sstatus = refl;
        satp = refl;
        user_mode = refl;
        interrupts = refl;
        sscratch = refl;
      })
