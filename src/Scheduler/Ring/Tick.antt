-- ===== src/Scheduler/Ring/Tick.antt =====
-- `schedulerInit`, `schedulerTick` and `schedulerExit`.
use moonix.Base.{ℕ, suc, ◌^◌, ◌<◌, ◌≡◌, ◌≢◌, refl, true, false, List, [], map, has, arith}
use moonix.Scheduler.{RrScheduler, scheduler_init, scheduler_tick, scheduler_exit}
use moonix.Scheduler.Ring.{Holds}
use moonix.Scheduler.Ring.Frame.{Chain-frame, has-map-suc}

-- `schedulerInit` leaves no thread in the queue, whatever the array held.
pub init-empty :
    (s : RrScheduler) → ((i : ℕ) → (s.threads i).time < 2 ^ 64) → Holds (scheduler_init s) []
unfolding scheduler_init
init-empty s h = record { chain = (refl, refl); quantum = refl; words = λ i. ground (arith, h i) }

tick_at : (s : RrScheduler) (a : ℕ) → s.current ≢ a → ((scheduler_tick s).1.threads a) ≡ s.threads a
unfolding scheduler_tick
tick_at s a h = ground arith

tick_links :
    (s : RrScheduler) (a : ℕ)
    → (((scheduler_tick s).1.threads a).next ≡ (s.threads a).next)
      × (((scheduler_tick s).1.threads a).prev ≡ (s.threads a).prev)
unfolding scheduler_tick
tick_links s a = (ground arith, ground arith)

tick_kept :
    (s : RrScheduler)
    → ((scheduler_tick s).1.current ≡ s.current) × ((scheduler_tick s).1.max_time ≡ s.max_time)
unfolding scheduler_tick
tick_kept s = (ground arith, ground arith)

tick-words :
    (s : RrScheduler)
    → ((i : ℕ) → (s.threads i).time < 2 ^ 64)
    → (i : ℕ) → ((scheduler_tick s).1.threads i).time < 2 ^ 64
unfolding scheduler_tick
tick-words s h i = ground (arith, h i)

-- The time slice of the running thread counts down, and the queue does not change, since the
-- running thread is not in it.
pub tick-Holds :
    (s : RrScheduler) (n : ℕ) (q : List ℕ)
    → Holds s q
    → s.current ≡ suc n
    → has n q ≡ false
    → Holds (scheduler_tick s).1 q × ((scheduler_tick s).1.current ≡ suc n)
tick-Holds s n q h e fresh = (
  record {
    chain =
        Chain-frame s.threads (scheduler_tick s).1.threads 0 (map suc q) h.chain (tick_links s 0).0
          (tick_links s 0).1 (λ x m. tick_at s x (ground (arith, has-map-suc n q)));
    quantum = omega (arith, (tick_kept s).1, h.quantum);
    words = tick-words s h.words;
  },
  omega (arith, (tick_kept s).0),
)

-- With no current thread `schedulerTick` asks for a switch and changes nothing.
pub tick_idle : (s : RrScheduler) → s.current ≡ 0 → scheduler_tick s ≡ (true, s)
unfolding scheduler_tick
tick_idle s e = ground arith

exit_threads : (s : RrScheduler) (n : ℕ) → (scheduler_exit s n).threads ≡ s.threads
unfolding scheduler_exit
exit_threads s n = ground arith

exit_quantum : (s : RrScheduler) (n : ℕ) → (scheduler_exit s n).max_time ≡ s.max_time
unfolding scheduler_exit
exit_quantum s n = ground arith

-- `schedulerExit` leaves the queue alone, and no exited thread stays current.
pub exit-Holds :
    (s : RrScheduler) (n : ℕ) (q : List ℕ)
    → Holds s q
    → Holds (scheduler_exit s n) q × ((scheduler_exit s n).current ≢ suc n)
unfolding scheduler_exit
exit-Holds s n q h = (
  record {
    chain = rw (exit_threads s n) h.chain;
    quantum = omega (arith, exit_quantum s n, h.quantum);
    words = rw (exit_threads s n) h.words;
  },
  ground arith,
)
