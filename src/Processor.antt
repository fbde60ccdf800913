-- ===== src/Processor.antt =====
-- kernel/threadpool.c and kernel/processor.c: the thread pool, and the processor that runs its
-- threads. The scheduler is a parameter with the laws of `Scheduler.Interface`, called where the
-- code calls it through the pointers of the pool; `wakeupCPU` calls `schedulerPush` by name, which
-- `initThread` has also put into the pool. Interrupts are off wherever the kernel runs here, so
-- each function is one step. A thread runs between two steps; `switchThread` stores where its
-- stack ends, which is the argument `sp`. `kfree` is recorded in `released`.
pub mod Exit
pub mod Invariant
pub mod Reach
pub mod Pool
pub mod Slots
pub mod Steps
pub mod Switch
pub mod Tests
use moonix.Base.{
  ℕ, zero, suc, ◌+◌, ◌-◌, Bool, true, false, Option, none, some, List, ◌∷◌, update, if◌then◌else◌,
  Run, ok, panic, ◌>>=◌,
}
use moonix.Thread.{Thread, Status, ready, running, sleeping, ThreadInfo, RunningThread}
use moonix.Scheduler.Interface.{Scheduler}

abbrev pub is_running : Status → Bool
is_running running = true
is_running _ = false

-- The loop of `allocTid`: `rounds` slots from `i` on are left to try.
unfoldable pub free_tid : (ℕ → ThreadInfo) → ℕ → ℕ → Option ℕ
free_tid slots zero i = none
free_tid slots (suc rounds) i =
    let later = free_tid slots rounds (i + 1) in if (slots i).occupied then later else some i

unfoldable pub alloc_tid : (ℕ → ThreadInfo) → Run ℕ
alloc_tid slots = elim (free_tid slots 0x40 0) [ none ↦ panic | some i ↦ ok i ]

module _ (sch : Scheduler) where
  pub record ThreadPool : Type 0 where
    pub threads : ℕ → ThreadInfo
    pub scheduler : sch.State

  pub record Processor : Type 0 where
    pub pool : ThreadPool
    pub idle : Thread
    pub current : RunningThread
    pub occupied : Bool
    pub released : List ℕ

  unfoldable pub add_to_pool : ThreadPool → Thread → Run ThreadPool
  add_to_pool pool thread = do
    tid ← alloc_tid pool.threads
    let info = record (pool.threads tid) { status = ready; occupied = true; thread = thread }
    s ← sch.push pool.scheduler tid
    ok (record { threads = update pool.threads tid info; scheduler = s })

  -- `none` for a `RunningThread` with the `tid` -1.
  unfoldable pub acquire_from_pool : ThreadPool → Option RunningThread × ThreadPool
  acquire_from_pool pool =
      let s = (sch.pop pool.scheduler).1 in
      elim (sch.pop pool.scheduler).0 [
        | none ↦ (none, record pool { scheduler = s })
        | some tid ↦
            let ti = pool.threads tid in
            (
              some (record { tid = tid; thread = ti.thread }),
              record {
                threads = update pool.threads tid (record ti { status = running; tid = tid });
                scheduler = s;
              },
            )
      ]

  -- With the address that is given to `kfree`, if any.
  unfoldable pub retrieve_to_pool : ThreadPool → RunningThread → Run (Option ℕ × ThreadPool)
  retrieve_to_pool pool rt =
      let ti = pool.threads rt.tid in
      let requeue : Run (Option ℕ × ThreadPool) = do
        let info = record ti { thread = rt.thread; status = ready }
        s ← sch.push pool.scheduler rt.tid
        ok (none, record { threads = update pool.threads rt.tid info; scheduler = s })
      in let keep : Run (Option ℕ × ThreadPool) = ok (
        none,
        record pool { threads = update pool.threads rt.tid (record ti { thread = rt.thread }) },
      ) in
        if ti.occupied
        then (if is_running ti.status then requeue else keep)
        else ok (some ti.thread.kstack, pool)

  unfoldable pub tick_pool : ThreadPool → Bool × ThreadPool
  tick_pool pool = let (done, s) = sch.tick pool.scheduler in (done, record pool { scheduler = s })

  unfoldable pub exit_from_pool : ThreadPool → ℕ → ThreadPool
  exit_from_pool pool tid = record {
    threads = update pool.threads tid (record (pool.threads tid) { occupied = false });
    scheduler = sch.exit pool.scheduler tid;
  }

  -- `newThreadPool` and `initCPU`. The pool is a local variable of `newThreadPool` of which only
  -- the scheduler is set, so its slots are what the stack held, `stale`; `before` is the memory
  -- of the processor, which keeps its current thread.
  unfoldable pub new_thread_pool : (ℕ → ThreadInfo) → sch.State → ThreadPool
  new_thread_pool stale s = record { threads = stale; scheduler = s }

  unfoldable pub init_cpu : Processor → Thread → ThreadPool → Processor
  init_cpu before idle pool = record before { idle = idle; pool = pool; occupied = false }

  unfoldable pub add_to_cpu : Processor → Thread → Run Processor
  unfolding add_to_pool
  add_to_cpu c thread = do pool ← add_to_pool c.pool thread; ok (record c { pool = pool })

  -- The upper half of a round of `idleMain`: it picks a thread and switches to it, which leaves
  -- no saved context behind. With no runnable thread it waits for an interrupt.
  unfoldable pub dispatch : Processor → ℕ → Processor
  dispatch c sp =
      let (next, pool) = acquire_from_pool c.pool in
      elim next [
        | none ↦ record c { pool = pool }
        | some rt ↦ record c {
          pool = pool;
          idle = record (c.idle) { context_addr = sp };
          current = record rt { thread = record (rt.thread) { context_addr = 0 } };
          occupied = true;
        }
      ]

  abbrev pub release : Option ℕ → List ℕ → List ℕ
  release none l = l
  release (some a) l = a ∷ l

  -- `switchThread(&CPU.current.thread, &CPU.idle)` and the lower half of a round of `idleMain`,
  -- which the switch resumes.
  unfoldable pub switch_to_idle : Processor → ℕ → Run Processor
  switch_to_idle c sp = do
    let saved = record (c.current.thread) { context_addr = sp }
    let rt = record (c.current) { thread = saved }
    (freed, pool) ← retrieve_to_pool c.pool rt
    ok (record {
      pool = pool;
      idle = record (c.idle) { context_addr = 0 };
      current = rt;
      occupied = false;
      released = release freed c.released;
    })

  unfoldable pub tick_cpu : Processor → ℕ → Run Processor
  tick_cpu c sp =
      let (done, pool) = tick_pool c.pool in
      let ticked = record c { pool = pool } in
      if c.occupied then (if done then switch_to_idle ticked sp else ok ticked) else ok c

  unfoldable pub wakeup_cpu : Processor → ℕ → Run Processor
  wakeup_cpu c tid = do
    let info = record (c.pool.threads tid) { status = ready }
    s ← sch.push c.pool.scheduler tid
    ok (record c { pool = record { threads = update c.pool.threads tid info; scheduler = s } })

  -- `if(CPU.current.thread.wait != -1) wakeupCPU(CPU.current.thread.wait)`
  unfoldable pub wake_waiter : Processor → Option ℕ → Run Processor
  wake_waiter c none = ok c
  wake_waiter c (some w) = wakeup_cpu c w

  unfoldable pub exit_from_cpu : Processor → ℕ → Run Processor
  unfolding exit_from_pool wake_waiter
  exit_from_cpu c sp = do
    let gone = record c { pool = exit_from_pool c.pool c.current.tid }
    woken ← wake_waiter gone c.current.thread.wait
    switch_to_idle woken sp

  unfoldable pub yield_cpu : Processor → ℕ → Run Processor
  yield_cpu c sp =
      let tid = c.current.tid in
      let info = record (c.pool.threads tid) { status = sleeping } in
      let asleep = record c {
        pool = record (c.pool) { threads = update c.pool.threads tid info };
      } in
      if c.occupied then switch_to_idle asleep sp else ok c
