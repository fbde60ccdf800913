-- ===== src/Scheduler/Ring/Rounds.antt =====
-- The scheduler over several calls: slices run out, and every queued thread has its turn.
use moonix.Base.{
  ℕ, zero, suc, ◌^◌, ◌<◌, ◌≡◌, ◌≢◌, true, false, some, none, List, [], ◌∷◌, ◌++◌, arith, Bool, ap,
  length, ◌==◌, if◌then◌else◌, Returns, Returns-mono,
}
use moonix.Scheduler.{RrScheduler, scheduler_tick, scheduler_pop, scheduler_push, max_thread}
use moonix.Scheduler.Ring.{Holds}
use moonix.Scheduler.Ring.Push.{push-snoc}
use moonix.Scheduler.Ring.Pop.{pop-cons, pop-nil, head_distinct}

-- Whether one of `k` calls of `schedulerTick` in a row asks for a switch.
unfoldable pub ticks : ℕ → RrScheduler → Bool
ticks zero s = false
ticks (suc k) s =
    let more = ticks k (scheduler_tick s).1 in if (scheduler_tick s).0 then true else more

tick_step :
    (s : RrScheduler) (k : ℕ)
    → s.current ≢ 0
    → (s.threads s.current).time ≡ suc k
    → suc k < 2 ^ 64
    → ((scheduler_tick s).0 ≡ (k == 0))
      × ((scheduler_tick s).1.current ≡ s.current)
      × (((scheduler_tick s).1.threads s.current).time ≡ k)
unfolding scheduler_tick
tick_step s k ne e small = (ground arith, ground arith, ground arith)

-- A running thread with a slice of `k + 1` ticks keeps the processor for `k` ticks, and the next
-- tick asks for a switch.
pub ticks_slice :
    (k : ℕ) (s : RrScheduler)
    → s.current ≢ 0
    → (s.threads s.current).time ≡ suc k
    → suc k < 2 ^ 64
    → (ticks k s ≡ false) × (ticks (suc k) s ≡ true)
unfolding ticks
ticks_slice zero s ne e small = ground (arith, tick_step s 0)
ticks_slice (suc k) s ne e small =
    let step = tick_step s (suc k) ne e small in
    let rest = ticks_slice k (scheduler_tick s).1 (rw step.1 ne) (rw step.1 step.2) (omega arith) in
    ground arith

-- The threads that `k` calls of `schedulerPop` give, in order.
unfoldable pub turns : ℕ → RrScheduler → List ℕ
turns zero s = []
turns (suc k) s =
    let rest = turns k (scheduler_pop s).1 in
    elim (scheduler_pop s).0 [ none ↦ [] | some n ↦ n ∷ rest ]

-- Calling `schedulerPop` as often as there are queued threads gives each of them once, the one
-- that has waited longest first, and one call more finds the queue empty.
pub turns-queue : (s : RrScheduler) (q : List ℕ) → Holds s q → turns (suc (length q)) s ≡ q
unfolding turns
turns-queue s [] h = rw (pop-nil s h, turns)
turns-queue s (n ∷ q) h =
    let popped = pop-cons s n q h in
    rw (popped.0, turns) (ap (◌∷◌ n) (turns-queue (scheduler_pop s).1 q popped.1))

-- A thread whose slice is over goes behind all the others.
pub round_robin :
    (s : RrScheduler) (n : ℕ) (q : List ℕ)
    → Holds s (n ∷ q)
    → Returns (λ s'. Holds s' (q ++ n ∷ [])) (scheduler_push (scheduler_pop s).1 n)
round_robin s n q h =
    let new = head_distinct s n q h in
    let bound : n < max_thread = h.chain.2.bounded in
    Returns-mono (push-snoc (scheduler_pop s).1 n q (pop-cons s n q h).1 bound new) (λ t r. r.0)
