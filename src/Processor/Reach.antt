-- ===== src/Processor/Reach.antt =====
-- The processor as a state machine: what may happen in which order, and what holds all along.
use moonix.Base.{
  ℕ, ◌<◌, ◌≡◌, refl, true, false, List, [], ◌∷◌, ◌++◌, arith, Run, ok, panic, out_of_fuel,
  Returns-at, Bool,
}
use moonix.Thread.{Thread, ThreadInfo, sleeping}
use moonix.Scheduler.{max_thread}
use moonix.Scheduler.Interface.{Scheduler, Laws}
use moonix.Processor.{
  Processor, new_thread_pool, init_cpu, add_to_cpu, alloc_tid, dispatch, tick_cpu, wakeup_cpu,
  exit_from_cpu, yield_cpu,
}
use moonix.Processor.Invariant.{IsValid}
use moonix.Processor.Steps.{
  Ticked, dispatch-cons, dispatch-nil, tick_cpu-Ticked, yield_cpu-sleeps, wakeup_cpu-queues,
}
use moonix.Processor.Exit.{Awaited, behind, exit_from_cpu-Exited}
use moonix.Processor.Pool.{add_to_cpu-Added, add_to_cpu-panic, add_to_cpu-fuel}

module _ (sch : Scheduler) (laws : Laws sch) where
  -- The idle thread picks a thread; the running thread is interrupted by the clock, yields or
  -- exits; a sleeping thread is woken; a thread is added.
  pub data Step (c : Processor sch) : Processor sch → Type 0 where
    dispatched :
        {c' : Processor sch} (sp : ℕ) → c.occupied ≡ false → dispatch sch c sp ≡ c' → Step c c'
    ticked :
        {c' : Processor sch} (sp : ℕ) → c.occupied ≡ true → tick_cpu sch c sp ≡ ok c' → Step c c'
    yielded :
        {c' : Processor sch} (sp : ℕ) → c.occupied ≡ true → yield_cpu sch c sp ≡ ok c' → Step c c'
    exits :
        {c' : Processor sch} (sp : ℕ)
        → c.occupied ≡ true
        → Awaited c.pool.threads c.current.thread.wait
        → exit_from_cpu sch c sp ≡ ok c'
        → Step c c'
    woken :
        {c' : Processor sch} (n : ℕ)
        → n < max_thread
        → (c.pool.threads n).occupied ≡ true
        → (c.pool.threads n).status ≡ sleeping
        → wakeup_cpu sch c n ≡ ok c'
        → Step c c'
    added : {c' : Processor sch} (thread : Thread) → add_to_cpu sch c thread ≡ ok c' → Step c c'

  pub data Reach (c : Processor sch) : Processor sch → Type 0 where
    here : Reach c c
    next : {d e : Processor sch} → Reach c d → Step d e → Reach c e

  abbrev pub Valid : Processor sch → Type 0
  Valid c = (q : List ℕ) × IsValid sch laws c q

  dispatch-Valid :
      (c : Processor sch) (sp : ℕ) (q : List ℕ)
      → IsValid sch laws c q
      → c.occupied ≡ false
      → Valid (dispatch sch c sp)
  dispatch-Valid c sp [] v idle = ([], rw (dispatch-nil sch laws c sp v) v)
  dispatch-Valid c sp (n ∷ q) v idle = (q, (dispatch-cons sch laws c sp n q v idle).0)

  Ticked-Valid :
      (c c' : Processor sch) (sp : ℕ) (q : List ℕ) (b : Bool)
      → Ticked sch laws c sp q b c'
      → Valid c'
  Ticked-Valid c c' sp q true t = (q ++ c.current.tid ∷ [], t.0)
  Ticked-Valid c c' sp q false t = (q, t.0)

  add-found :
      (c : Processor sch) (thread : Thread) (r : Run ℕ)
      → alloc_tid c.pool.threads ≡ r
      → (c' : Processor sch) → add_to_cpu sch c thread ≡ ok c'
      → (k : ℕ) × (alloc_tid c.pool.threads ≡ ok k)
  add-found c thread (ok k) e c' h = (k, e)
  add-found c thread panic e c' h = let p = add_to_cpu-panic sch laws c [] thread e in cc
  add-found c thread out_of_fuel e c' h = let p = add_to_cpu-fuel sch laws c [] thread e in cc

  Step-Valid : {c c' : Processor sch} → Step c c' → Valid c → Valid c'
  Step-Valid {c} (dispatched sp idle e) (q, v) = rw (← e) (dispatch-Valid c sp q v idle)
  Step-Valid {c} {c'} (ticked sp busy e) (q, v) =
      Ticked-Valid c c' sp q _ (Returns-at (tick_cpu-Ticked sch laws c sp q v busy) e)
  Step-Valid {c} (yielded sp busy e) (q, v) =
      (q, (Returns-at (yield_cpu-sleeps sch laws c sp q v busy) e).0)
  Step-Valid {c} (exits sp busy a e) (q, v) = (
    behind q c.current.thread.wait,
    (Returns-at (exit_from_cpu-Exited sch laws c sp q v busy a) e).0,
  )
  Step-Valid {c} (woken n bound taken sleeps e) (q, v) =
      (q ++ n ∷ [], (Returns-at (wakeup_cpu-queues sch laws c n q v bound taken sleeps) e).0)
  Step-Valid {c} {c'} (added thread e) (q, v) =
      let (k, found) = add-found c thread (alloc_tid c.pool.threads) refl c' e in
      (q ++ k ∷ [], (Returns-at (add_to_cpu-Added sch laws c q thread k v found) e).0)

  -- From a valid processor, any sequence of these steps leads to a valid one: dispatches while no thread
  -- has the processor; clock ticks, yields and exits while one has it, exits only if the thread
  -- that waits for it, if any, is another one, in a taken slot, and sleeps; wake-ups of a thread
  -- in a taken slot that sleeps; additions. Valid means that a thread is in the scheduler queue
  -- exactly if its slot is taken and marked ready, and that a taken slot is marked running
  -- exactly if its thread has the processor.
  pub Reach-Valid : {c c' : Processor sch} → Reach c c' → Valid c → Valid c'
  Reach-Valid here v = v
  Reach-Valid (next r s) v = Step-Valid s (Reach-Valid r v)

  -- The processor that `initThread` sets up is valid if no slot of the pool seems taken.
  pub init_cpu-IsValid :
      (before : Processor sch) (idle : Thread) (stale : ℕ → ThreadInfo) (s : sch.State)
      → laws.IsMemory s
      → ((i : ℕ) → i < max_thread → (stale i).occupied ≡ false)
      → IsValid sch laws (init_cpu sch before idle (new_thread_pool sch stale (sch.init s))) []
  unfolding init_cpu new_thread_pool
  init_cpu-IsValid before idle stale s m free = record {
    queue = laws.init-empty s m;
    slots = record {
      queued = λ i h. cc;
      waits = λ i b o h. absurd (ground (arith, free i));
      runs = λ i b o h. absurd (ground (arith, free i));
      live = λ i e. cc;
    };
    timed = λ i e. cc;
  }
