-- ===== src/Scheduler/Tests.antt =====
-- Runs of the round-robin scheduler, and its theorems at them.
use moonix.Base.{◌≡◌, refl, true, false, some, none, [], ◌∷◌, arith, panic, Returns, Returns-at}
use moonix.Scheduler.{
  RrScheduler, scheduler_init, scheduler_push, scheduler_pop, scheduler_tick, link, unlink,
}
use moonix.Scheduler.Ring.{Holds}
use moonix.Scheduler.Ring.Push.{push-snoc, push-panic}
use moonix.Scheduler.Ring.Pop.{pop-nil, pop-cons}
use moonix.Scheduler.Ring.Tick.{init-empty}
use moonix.Scheduler.Ring.Rounds.{ticks, ticks_slice, turns, turns-queue}

-- The zeroed memory in which the kernel starts.
abbrev pub blank : RrScheduler
blank = record {
  threads = λ _. record { valid = 0; time = 0; prev = 0; next = 0 };
  max_time = 0;
  current = 0;
}

abbrev pub start : RrScheduler
start = scheduler_init blank

pub start-Holds : Holds start []
start-Holds = init-empty blank (λ i. omega arith)

-- Thread 3 is runnable, then thread 7 too.
abbrev one : RrScheduler
one = link start 4

abbrev two : RrScheduler
two = link one 8

one-Holds : Holds one (3 ∷ [])
unfolding scheduler_push
one-Holds = (Returns-at (push-snoc start 3 [] start-Holds (omega arith) refl) refl).0

two-Holds : Holds two (3 ∷ 7 ∷ [])
unfolding scheduler_push
two-Holds = (Returns-at (push-snoc one 7 (3 ∷ []) one-Holds (omega arith) refl) refl).0

-- Threads 3, 7 and 0 are pushed, all three have a turn, and the ring is empty again.
three_turns : turns 4 (link two 1) ≡ 3 ∷ 7 ∷ 0 ∷ []
unfolding turns scheduler_pop unlink link scheduler_init
three_turns = refl

first_tick : (scheduler_tick (scheduler_pop one).1).0 ≡ true
unfolding scheduler_tick scheduler_pop unlink link scheduler_init
first_tick = refl

init-empty_example : Holds (scheduler_init blank) []
init-empty_example = init-empty blank (λ i. omega arith)

push-snoc_example :
    Returns (λ s'. Holds s' (3 ∷ 7 ∷ 5 ∷ []) × (s'.current ≡ two.current)) (scheduler_push two 5)
push-snoc_example = push-snoc two 5 (3 ∷ 7 ∷ []) two-Holds (omega arith) refl

push-panic_example : scheduler_push two 64 ≡ panic
push-panic_example = push-panic two 64 (omega arith)

pop-nil_example : scheduler_pop start ≡ (none, start)
pop-nil_example = pop-nil start start-Holds

pop-cons_example :
    ((scheduler_pop two).0 ≡ some 3)
    × Holds (scheduler_pop two).1 (7 ∷ [])
    × ((scheduler_pop two).1.current ≡ 4)
pop-cons_example = pop-cons two 3 (7 ∷ []) two-Holds

popped-Holds : Holds (scheduler_pop two).1 (7 ∷ [])
popped-Holds = (pop-cons two 3 (7 ∷ []) two-Holds).1

turns-queue_example : turns 3 two ≡ 3 ∷ 7 ∷ []
turns-queue_example = turns-queue two (3 ∷ 7 ∷ []) two-Holds

-- A thread with three ticks left.
abbrev running_3 : RrScheduler
running_3 = record {
  threads = λ _. record { valid = 0; time = 3; prev = 0; next = 0 };
  max_time = 3;
  current = 4;
}

ticks_slice_example : (ticks 2 running_3 ≡ false) × (ticks 3 running_3 ≡ true)
ticks_slice_example = ticks_slice 2 running_3 (omega arith) refl (omega arith)
