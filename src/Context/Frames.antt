-- ===== src/Context/Frames.antt =====
-- The first stack frames of a thread of kernel/thread.c.
use moonix.Base.{ℕ, ◌+◌, ◌-◌, ◌*◌, ◌^◌, ◌≤◌, ◌<◌, ◌≡◌, refl, ◌∙◌, arith, ◌⊎◌, false, ◌==◌}
use moonix.Context.{
  InterruptContext, ThreadContext, interrupt_word, thread_word, interrupt_size, thread_size,
  store_words, word, push_context_to_stack,
}
use moonix.Context.Layout.{store_words-outside, word-store_words, word-outside}

-- Every register is a word.
pub record AreWords (ic : InterruptContext) (tc : ThreadContext) : Type 0 where
  pub x : (i : ℕ) → ic.x i < 2 ^ 64
  pub sstatus : ic.sstatus < 2 ^ 64
  pub sepc : ic.sepc < 2 ^ 64
  pub ra : tc.ra < 2 ^ 64
  pub satp : tc.satp < 2 ^ 64
  pub s : (i : ℕ) → tc.s i < 2 ^ 64

pub interrupt_word-fits :
    (ic : InterruptContext) (tc : ThreadContext) (i : ℕ)
    → AreWords ic tc
    → interrupt_word ic i < 2 ^ 64
interrupt_word-fits ic tc i h = let a = h.x i in let b = h.sstatus in let c = h.sepc in ground arith

pub thread_word-fits :
    (ic : InterruptContext) (tc : ThreadContext) (i : ℕ)
    → AreWords ic tc
    → thread_word tc i < 2 ^ 64
thread_word-fits ic tc i h = let a = h.s (i - 2) in let b = h.ra in let c = h.satp in ground arith

-- Both contexts can be read below the top of the stack.
pub record Pushed (tc : ThreadContext) (ic : InterruptContext) (top : ℕ) (memory : ℕ → ℕ)
    : Type 0 where
  pub thread : (i : ℕ) → i < 14 → word memory (top - 384 + 8 * i) ≡ thread_word tc i
  pub interrupt : (i : ℕ) → i < 34 → word memory (top - 272 + 8 * i) ≡ interrupt_word ic i

pub push-Pushed :
    (tc : ThreadContext) (ic : InterruptContext) (top : ℕ) (memory : ℕ → ℕ)
    → AreWords ic tc
    → 384 ≤ top
    → ((push_context_to_stack tc ic top memory).0 ≡ top - 384)
      × Pushed tc ic top (push_context_to_stack tc ic top memory).1
unfolding push_context_to_stack
push-Pushed tc ic top memory words room =
    let memory1 = store_words memory (top - interrupt_size) 34 (interrupt_word ic) in
    let below : top - interrupt_size - thread_size ≡ top - 384 = omega arith in
    (
      below,
      record {
        thread = λ i h. rw below (
            word-store_words memory1 (top - 384) 14 (thread_word tc) i h
              (thread_word-fits ic tc i words));
        interrupt = λ i h.
            word-outside memory1 (top - interrupt_size - thread_size) 14 (thread_word tc)
              (top - 272 + 8 * i) (omega arith)
            ∙ word-store_words memory (top - 272) 34 (interrupt_word ic) i h
                (interrupt_word-fits ic tc i words);
      },
    )

pub thread_word-s : (tc : ThreadContext) (n : ℕ) → thread_word tc (n + 2) ≡ tc.s n
thread_word-s tc n =
    let no_ra : n + 2 == 0 ≡ false = ground arith in
    let no_satp : n + 2 == 1 ≡ false = ground arith in
    let index : n + 2 - 2 ≡ n = omega arith in rw (no_ra, no_satp, index) refl

-- No other byte changes when the contexts are pushed.
pub push-outside :
    (tc : ThreadContext) (ic : InterruptContext) (top : ℕ) (memory : ℕ → ℕ) (a : ℕ)
    → 384 ≤ top
    → (a < top - 384) ⊎ (top ≤ a)
    → (push_context_to_stack tc ic top memory).1 a ≡ memory a
unfolding push_context_to_stack
push-outside tc ic top memory a room out =
    let memory1 = store_words memory (top - interrupt_size) 34 (interrupt_word ic) in
    store_words-outside memory1 (top - interrupt_size - thread_size) 14 (thread_word tc) a
      (omega arith)
    ∙ store_words-outside memory (top - interrupt_size) 34 (interrupt_word ic) a (omega arith)
