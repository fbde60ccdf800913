-- ===== src/Processor/Slots.antt =====
-- The slots of the thread pool against the queue of the scheduler and the running thread: each
-- change of one slot that kernel/threadpool.c and kernel/processor.c make keeps them in step.
use moonix.Base.{
  ℕ, ◌<◌, ◌≡◌, true, false, Option, none, some, List, [], ◌∷◌, ◌++◌, has, has-snoc, update, arith,
}
use moonix.Thread.{Thread, ready, running, sleeping, ThreadInfo}
use moonix.Scheduler.{max_thread}

-- A thread is in the queue exactly if its slot is taken and marked ready, and a taken slot is
-- marked running exactly if its thread has the processor.
pub record InStep (t : ℕ → ThreadInfo) (q : List ℕ) (run : Option ℕ) : Type 0 where
  pub queued :
      (i : ℕ) → has i q ≡ true → (i < max_thread) × ((t i).occupied ≡ true) × ((t i).status ≡ ready)
  pub waits :
      (i : ℕ) → i < max_thread → (t i).occupied ≡ true → (t i).status ≡ ready → has i q ≡ true
  pub runs :
      (i : ℕ) → i < max_thread → (t i).occupied ≡ true → (t i).status ≡ running → run ≡ some i
  pub live :
      (i : ℕ) → run ≡ some i → (i < max_thread) × ((t i).occupied ≡ true) × ((t i).status ≡ running)

module _ (t : ℕ → ThreadInfo) (q : List ℕ) (i : ℕ) where
  pub InStep-acquire :
      InStep t (i ∷ q) none
      → has i q ≡ false
      → InStep (update t i (record (t i) { status = running; tid = i })) q (some i)
  InStep-acquire s fresh = record {
    queued = λ j h. ground (arith, s.queued j);
    waits = λ j b o h. ground (arith, s.waits j);
    runs = λ j b o h. ground (arith, s.runs j);
    live = λ j e. ground (arith, s.queued i);
  }

  pub InStep-add :
      (run : Option ℕ) (thread : Thread)
      → InStep t q run
      → i < max_thread
      → (t i).occupied ≡ false
      → InStep
          (update t i (record (t i) { status = ready; occupied = true; thread = thread }))
          (q ++ i ∷ [])
          run
  InStep-add run thread s bound free = record {
    queued = λ j h. ground (arith, s.queued j, has-snoc j i q);
    waits = λ j b o h. ground (arith, s.waits j, has-snoc j i q);
    runs = λ j b o h. ground (arith, s.runs j);
    live = λ j e. ground (arith, s.live j);
  }

  pub InStep-requeue :
      (thread : Thread)
      → InStep t q (some i)
      → InStep (update t i (record (t i) { thread = thread; status = ready })) (q ++ i ∷ []) none
  InStep-requeue thread s = record {
    queued = λ j h. ground (arith, s.queued j, s.live i, has-snoc j i q);
    waits = λ j b o h. ground (arith, s.waits j, has-snoc j i q);
    runs = λ j b o h. ground (arith, s.runs j);
    live = λ j e. ground arith;
  }

  pub InStep-sleep :
      InStep t q (some i) → InStep (update t i (record (t i) { status = sleeping })) q none
  InStep-sleep s = record {
    queued = λ j h. ground (arith, s.queued j, s.live i);
    waits = λ j b o h. ground (arith, s.waits j);
    runs = λ j b o h. ground (arith, s.runs j);
    live = λ j e. ground arith;
  }

  -- What a slot keeps of its thread does not matter here.
  pub InStep-store :
      (run : Option ℕ) (thread : Thread)
      → InStep t q run
      → InStep (update t i (record (t i) { thread = thread })) q run
  InStep-store run thread s = record {
    queued = λ j h. ground (arith, s.queued j);
    waits = λ j b o h. ground (arith, s.waits j);
    runs = λ j b o h. ground (arith, s.runs j);
    live = λ j e. ground (arith, s.live j);
  }

  pub InStep-exit :
      InStep t q (some i) → InStep (update t i (record (t i) { occupied = false })) q none
  InStep-exit s = record {
    queued = λ j h. ground (arith, s.queued j, s.live i);
    waits = λ j b o h. ground (arith, s.waits j);
    runs = λ j b o h. ground (arith, s.runs j);
    live = λ j e. ground arith;
  }

  pub InStep-wake :
      (run : Option ℕ)
      → InStep t q run
      → i < max_thread
      → (t i).occupied ≡ true
      → (t i).status ≡ sleeping
      → InStep (update t i (record (t i) { status = ready })) (q ++ i ∷ []) run
  InStep-wake run s bound taken asleep = record {
    queued = λ j h. ground (arith, s.queued j, has-snoc j i q);
    waits = λ j b o h. ground (arith, s.waits j, has-snoc j i q);
    runs = λ j b o h. ground (arith, s.runs j);
    live = λ j e. ground (arith, s.live j);
  }

  pub not-queued_sleeping :
      (run : Option ℕ) → InStep t q run → (t i).status ≡ sleeping → has i q ≡ false
  not-queued_sleeping run s e = ground (arith, s.queued i)

  pub not-queued_running : InStep t q (some i) → has i q ≡ false
  not-queued_running s = ground (arith, s.queued i, s.live i)

  pub not-queued_free : (run : Option ℕ) → InStep t q run → (t i).occupied ≡ false → has i q ≡ false
  not-queued_free run s e = ground (arith, s.queued i)
