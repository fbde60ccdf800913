-- ===== src/Scheduler/Interface.antt =====
-- `Scheduler` of kernel/thread.h: the five functions that the thread pool calls through pointers.
-- The pool knows of them only these laws, in terms of the queue of runnable threads; `rr` shows
-- that the round-robin scheduler keeps them.
use moonix.Base.{
  ℕ, suc, ◌<◌, ◌^◌, ◌≡◌, false, Bool, Option, none, some, List, [], ◌∷◌, ◌++◌, has, Run, Returns,
  Returns-mono, ◌∙◌,
}
use moonix.Scheduler.{
  RrScheduler, max_thread, scheduler_init, scheduler_push, scheduler_pop, scheduler_tick,
  scheduler_exit,
}
use moonix.Scheduler.Ring.{Holds}
use moonix.Scheduler.Ring.Push.{push-snoc}
use moonix.Scheduler.Ring.Pop.{pop-nil, pop-cons, head_distinct}
use moonix.Scheduler.Ring.Tick.{init-empty, tick-Holds, exit-Holds}

pub record Scheduler : Type 1 where
  pub State : Type 0
  pub init : State → State
  pub push : State → ℕ → Run State
  pub pop : State → Option ℕ × State
  pub tick : State → Bool × State
  pub exit : State → ℕ → State

pub record Laws (sch : Scheduler) : Type 1 where
  -- What the memory of the scheduler may hold before `init`.
  pub IsMemory : sch.State → Type 0
  -- The threads that wait for the processor, in order.
  pub Queues : sch.State → List ℕ → Type 0
  -- The thread whose time slice runs.
  pub Runs : sch.State → ℕ → Type 0
  pub init-empty : (s : sch.State) → IsMemory s → Queues (sch.init s) []
  pub push-snoc :
      (s : sch.State) (n : ℕ) (q : List ℕ)
      → Queues s q
      → n < max_thread
      → has n q ≡ false
      → Returns (λ s'. Queues s' (q ++ n ∷ []) × ((m : ℕ) → Runs s m → Runs s' m)) (sch.push s n)
  pub pop-nil : (s : sch.State) → Queues s [] → sch.pop s ≡ (none, s)
  pub pop-cons :
      (s : sch.State) (n : ℕ) (q : List ℕ)
      → Queues s (n ∷ q)
      → ((sch.pop s).0 ≡ some n) × Queues (sch.pop s).1 q × Runs (sch.pop s).1 n
  pub distinct : (s : sch.State) (n : ℕ) (q : List ℕ) → Queues s (n ∷ q) → has n q ≡ false
  pub tick_kept :
      (s : sch.State) (n : ℕ) (q : List ℕ)
      → Queues s q
      → Runs s n
      → has n q ≡ false
      → Queues (sch.tick s).1 q × Runs (sch.tick s).1 n
  pub exit_kept : (s : sch.State) (n : ℕ) (q : List ℕ) → Queues s q → Queues (sch.exit s n) q

-- The functions that `initThread` (kernel/thread.c) puts into the pool.
abbrev pub round_robin : Scheduler
round_robin = record {
  State = RrScheduler;
  init = scheduler_init;
  push = scheduler_push;
  pop = scheduler_pop;
  tick = scheduler_tick;
  exit = scheduler_exit;
}

abbrev pub rr : Laws round_robin
rr = record {
  IsMemory = λ s. (i : ℕ) → (s.threads i).time < 2 ^ 64;
  Queues = Holds;
  Runs = λ s n. s.current ≡ suc n;
  init-empty = init-empty;
  push-snoc = λ s n q h bound fresh.
      Returns-mono (push-snoc s n q h bound fresh) (λ t r. (r.0, λ m e. r.1 ∙ e));
  pop-nil = pop-nil;
  pop-cons = pop-cons;
  distinct = head_distinct;
  tick_kept = tick-Holds;
  exit_kept = λ s n q h. (exit-Holds s n q h).0;
}
