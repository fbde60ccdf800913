-- ===== src/Processor/Tests.antt =====
-- The processor with the round-robin scheduler: two threads share it.
use moonix.Base.{◌≡◌, refl, true, false, none, [], ◌∷◌, arith, ok, Run, Returns, Returns-at}
use moonix.Thread.{ThreadInfo, ready, sleeping}
use moonix.Thread.Tests.{sample}
use moonix.Scheduler.{scheduler_init, scheduler_push, scheduler_pop, scheduler_tick, link, unlink}
use moonix.Scheduler.Interface.{round_robin, rr}
use moonix.Scheduler.Tests.{blank, start}
use moonix.Processor.{
  Processor, new_thread_pool, init_cpu, alloc_tid, free_tid, add_to_cpu, dispatch,
  acquire_from_pool, yield_cpu, exit_from_cpu, switch_to_idle, retrieve_to_pool,
}
use moonix.Processor.Invariant.{IsValid}
use moonix.Processor.Pool.{add_to_cpu-Added}
use moonix.Processor.Steps.{dispatch-cons, yield_cpu-sleeps}
use moonix.Processor.Exit.{Exited, exit_from_cpu-Exited}
use moonix.Processor.Reach.{
  Reach, Valid, here, next, added, dispatched, init_cpu-IsValid, Reach-Valid,
}

abbrev pub Cpu : Type 0
Cpu = Processor round_robin

abbrev empty_slot : ThreadInfo
empty_slot = record { status = ready; tid = 0; occupied = false; thread = sample }

abbrev pub before : Cpu
before = record {
  pool = record { threads = λ _. empty_slot; scheduler = blank };
  idle = sample;
  current = record { tid = 0; thread = sample };
  occupied = false;
  released = [];
}

-- After `initCPU`; thread 0 is added; it runs; it yields; it is woken.
abbrev pub booted : Cpu
booted = init_cpu round_robin before sample (new_thread_pool round_robin (λ _. empty_slot) start)

abbrev pub the : Run Cpu → Cpu
the (ok c) = c
the _ = before

abbrev pub loaded : Cpu
loaded = the (add_to_cpu round_robin booted sample)

abbrev pub busy : Cpu
busy = dispatch round_robin loaded 500

abbrev pub asleep : Cpu
asleep = the (yield_cpu round_robin busy 600)

booted-IsValid : IsValid round_robin rr booted []
booted-IsValid =
    init_cpu-IsValid round_robin rr before sample (λ _. empty_slot) blank (λ i. omega arith)
      (λ i b. refl)

init_cpu-IsValid_example : IsValid round_robin rr booted []
init_cpu-IsValid_example =
    init_cpu-IsValid round_robin rr before sample (λ _. empty_slot) blank (λ i. omega arith)
      (λ i b. refl)

first_slot : alloc_tid booted.pool.threads ≡ ok 0
unfolding alloc_tid free_tid init_cpu new_thread_pool
first_slot = refl

loads : add_to_cpu round_robin booted sample ≡ ok loaded
unfolding add_to_cpu alloc_tid free_tid init_cpu new_thread_pool scheduler_push link scheduler_init
loads = refl

loaded-IsValid : IsValid round_robin rr loaded (0 ∷ [])
loaded-IsValid =
    (Returns-at (add_to_cpu-Added round_robin rr booted [] sample 0 booted-IsValid first_slot)
      loads).0

loaded_idle : loaded.occupied ≡ false
unfolding add_to_cpu alloc_tid free_tid init_cpu new_thread_pool scheduler_push link scheduler_init
loaded_idle = refl

pub busy-IsValid : IsValid round_robin rr busy []
busy-IsValid = (dispatch-cons round_robin rr loaded 500 0 [] loaded-IsValid loaded_idle).0

pub is_busy : busy.occupied ≡ true
unfolding dispatch acquire_from_pool yield_cpu switch_to_idle retrieve_to_pool add_to_cpu alloc_tid
    free_tid init_cpu new_thread_pool scheduler_push scheduler_pop scheduler_tick link unlink
    scheduler_init
is_busy = refl

yields : yield_cpu round_robin busy 600 ≡ ok asleep
unfolding dispatch acquire_from_pool yield_cpu switch_to_idle retrieve_to_pool add_to_cpu alloc_tid
    free_tid init_cpu new_thread_pool scheduler_push scheduler_pop scheduler_tick link unlink
    scheduler_init
yields = refl

pub asleep_slot :
    ((asleep.pool.threads 0).occupied ≡ true) × ((asleep.pool.threads 0).status ≡ sleeping)
unfolding dispatch acquire_from_pool yield_cpu switch_to_idle retrieve_to_pool add_to_cpu alloc_tid
    free_tid init_cpu new_thread_pool scheduler_push scheduler_pop scheduler_tick link unlink
    scheduler_init
asleep_slot = (refl, refl)

slice_over : (scheduler_tick busy.pool.scheduler).0 ≡ true
unfolding dispatch acquire_from_pool yield_cpu switch_to_idle retrieve_to_pool add_to_cpu alloc_tid
    free_tid init_cpu new_thread_pool scheduler_push scheduler_pop scheduler_tick link unlink
    scheduler_init
slice_over = refl

nobody_waits : busy.current.thread.wait ≡ none
unfolding dispatch acquire_from_pool yield_cpu switch_to_idle retrieve_to_pool add_to_cpu alloc_tid
    free_tid init_cpu new_thread_pool scheduler_push scheduler_pop scheduler_tick link unlink
    scheduler_init
nobody_waits = refl

pub asleep-IsValid : IsValid round_robin rr asleep []
asleep-IsValid =
    (Returns-at (yield_cpu-sleeps round_robin rr busy 600 [] busy-IsValid is_busy) yields).0

exit_from_cpu-Exited_example :
    Returns (Exited round_robin rr busy 800 []) (exit_from_cpu round_robin busy 800)
exit_from_cpu-Exited_example =
    exit_from_cpu-Exited round_robin rr busy 800 [] busy-IsValid is_busy (rw nobody_waits tt)

history : Reach round_robin rr booted busy
history = next (next here (added sample loads)) (dispatched 500 loaded_idle refl)

Reach-Valid_example : Valid round_robin rr busy
Reach-Valid_example = Reach-Valid round_robin rr history ([], booted-IsValid)
