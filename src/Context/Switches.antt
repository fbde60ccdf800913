-- ===== src/Context/Switches.antt =====
-- What kernel/switch.asm loads, and what it leaves as it was.
use moonix.Base.{ℕ, ◌+◌, ◌-◌, ◌*◌, ◌≤◌, ◌<◌, ◌≡◌, refl, sym, ap, ◌∙◌, arith, true, false, ◌==◌}
use moonix.Paging.{store}
use moonix.Context.{
  ThreadContext, Hart, thread_word, thread_size, store_words, word, switch_context, saved_context,
  s_register, is_saved, saved_index,
}
use moonix.Context.Layout.{AreApart, word-outside, word-store-outside}
use moonix.Context.Frames.{thread_word-s}

-- What a switch writes to: the two context addresses, and the frame below the stack pointer.
pub record CanSwitch (self target : ℕ) (h : Hart) : Type 0 where
  pub room : thread_size ≤ h.x 2
  pub apart : AreApart self 8 target 8
  pub target_frame : AreApart target 8 (h.x 2 - thread_size) thread_size

saved-at :
    (n : ℕ)
    → n < 12
    → (s_register n == 1 ≡ false)
      × (s_register n == 2 ≡ false)
      × (is_saved (s_register n) ≡ true)
      × (saved_index (s_register n) ≡ n)
saved-at n h = (ground arith, ground arith, ground arith, ground arith)

module _ (self target : ℕ) (h : Hart) (memory : ℕ → ℕ) (can : CanSwitch self target h) where
  -- The words that a switch leaves as they were.
  pub switch-keeps :
      (b : ℕ)
      → AreApart self 8 b 8
      → AreApart target 8 b 8
      → AreApart (h.x 2 - thread_size) thread_size b 8
      → word (switch_context self target h memory).1 b ≡ word memory b
  unfolding switch_context
  switch-keeps b a1 a2 a3 =
      word-store-outside _ target 0 b (omega arith)
      ∙ word-outside _ (h.x 2 - thread_size) 14 (thread_word (saved_context h)) b (omega arith)
      ∙ word-store-outside memory self (h.x 2 - thread_size) b (omega arith)

  abbrev pub memory2 : ℕ → ℕ
  memory2 =
      store_words (store memory self 8 (h.x 2 - thread_size)) (h.x 2 - thread_size) 14
        (thread_word (saved_context h))

  pub before-keeps :
      (b : ℕ)
      → AreApart self 8 b 8
      → AreApart (h.x 2 - thread_size) thread_size b 8
      → word memory2 b ≡ word memory b
  before-keeps b a1 a3 =
      word-outside _ (h.x 2 - thread_size) 14 (thread_word (saved_context h)) b (omega arith)
      ∙ word-store-outside memory self (h.x 2 - thread_size) b (omega arith)

  -- The registers that a switch loads.
  pub record Loaded (tc : ThreadContext) (sp : ℕ) (h' : Hart) : Type 0 where
    pub pc : h'.pc ≡ tc.ra
    pub ra : h'.x 1 ≡ tc.ra
    pub satp : h'.satp ≡ tc.satp
    pub stack : h'.x 2 ≡ sp + thread_size
    pub s : (n : ℕ) → n < 12 → h'.x (s_register n) ≡ tc.s n
    pub others :
        (h'.sscratch ≡ h.sscratch) × (h'.user_mode ≡ h.user_mode) × (h'.sstatus ≡ h.sstatus)

  pub switch-Loaded :
      (tc : ThreadContext) (sp : ℕ)
      → word memory target ≡ sp
      → ((i : ℕ) → i < 14 → word memory2 (sp + 8 * i) ≡ thread_word tc i)
      → Loaded tc sp (switch_context self target h memory).0
  unfolding switch_context
  switch-Loaded tc sp at words =
      let place : word memory2 target ≡ sp =
        before-keeps target (can.apart) (let f = can.target_frame in omega arith) ∙ at in
      let first : sp + 8 * 0 ≡ sp = omega arith in
      let second : sp + 8 * 1 ≡ sp + 8 = omega arith in
      let ra : word memory2 sp ≡ tc.ra = ap (word memory2) (sym first) ∙ words 0 (omega arith) in
      let satp : word memory2 (sp + 8) ≡ tc.satp =
        ap (word memory2) (sym second) ∙ words 1 (omega arith) in
      rw place (record {
        pc = ra;
        ra = ra;
        satp = satp;
        stack = refl;
        s = λ n less.
            let (no_ra, no_sp, is_s, index) = saved-at n less in
            rw (no_ra, no_sp, is_s, index)
              (words (n + 2) (omega (arith, less)) ∙ thread_word-s tc n);
        others = (refl, refl, refl);
      })
