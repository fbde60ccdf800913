-- ===== src/Processor/Switch.antt =====
-- Switches from a thread to the idle thread, with what `retrieveToPool` makes of the thread.
use moonix.Base.{
  ℕ, ◌≡◌, refl, true, false, none, some, List, [], ◌∷◌, ◌++◌, update, arith, ok, Returns,
  Returns-inv, Returns-ok,
}
use moonix.Thread.{Thread, ready, running, ThreadInfo}
use moonix.Scheduler.Interface.{Scheduler, Laws}
use moonix.Processor.{ThreadPool, Processor, is_running, retrieve_to_pool, switch_to_idle}
use moonix.Processor.Slots
use moonix.Processor.Slots.{InStep}
use moonix.Processor.Invariant.{IsValid}

module _ (sch : Scheduler) where
  -- What the processor is after a switch to the idle thread.
  abbrev pub Idles : Processor sch → Processor sch → ℕ → Type 0
  Idles c c' sp =
      (c'.occupied ≡ false)
      × (c'.idle.context_addr ≡ 0)
      × (c'.current.thread ≡ record (c.current.thread) { context_addr = sp })

module _ (sch : Scheduler) (laws : Laws sch) (c : Processor sch) (sp : ℕ) (q : List ℕ) where
  abbrev saved : Thread
  saved = record (c.current.thread) { context_addr = sp }

  abbrev slot : ThreadInfo
  slot = c.pool.threads c.current.tid

  -- The processor after the switch, with the pool and the released stacks that are given.
  abbrev idled : ThreadPool sch → List ℕ → Processor sch
  idled pool freed = record {
    pool = pool;
    idle = record (c.idle) { context_addr = 0 };
    current = record (c.current) { thread = saved };
    occupied = false;
    released = freed;
  }

  abbrev stored : ThreadInfo → ℕ → ThreadInfo
  stored info = update c.pool.threads c.current.tid info

  switch-eq_keep :
      slot.occupied ≡ true
      → is_running slot.status ≡ false
      → switch_to_idle sch c sp
        ≡ ok (
            idled
              (record (c.pool) { threads = stored (record slot { thread = saved }) })
              c.released)
  unfolding switch_to_idle retrieve_to_pool
  switch-eq_keep taken asleep = rw (taken, asleep)

  switch-eq_requeue :
      (s : sch.State)
      → slot.occupied ≡ true
      → slot.status ≡ running
      → sch.push c.pool.scheduler c.current.tid ≡ ok s
      → switch_to_idle sch c sp
        ≡ ok (
            idled
              (record {
                threads = stored (record slot { thread = saved; status = ready });
                scheduler = s;
              })
              c.released)
  unfolding switch_to_idle retrieve_to_pool
  switch-eq_requeue s taken runs pushed = rw (taken, runs, pushed)

  switch-eq_release :
      slot.occupied ≡ false
      → switch_to_idle sch c sp ≡ ok (idled c.pool (slot.thread.kstack ∷ c.released))
  unfolding switch_to_idle retrieve_to_pool
  switch-eq_release free = rw free

  -- A thread that sleeps keeps its slot, with its context, and does not enter the queue.
  pub switch_keep :
      slot.occupied ≡ true
      → is_running slot.status ≡ false
      → laws.Queues c.pool.scheduler q
      → InStep c.pool.threads q none
      → Returns
          (λ c'.
            IsValid sch laws c' q
            × Idles sch c c' sp
            × (c'.released ≡ c.released)
            × ((c'.pool.threads c.current.tid) ≡ record slot { thread = saved }))
          (switch_to_idle sch c sp)
  switch_keep taken asleep queue slots = Returns-ok (switch-eq_keep taken asleep) (
    record {
      queue = queue;
      slots = Slots.InStep-store c.pool.threads q c.current.tid none saved slots;
      timed = λ i e. cc;
    },
    (refl, refl, refl),
    refl,
    ground arith,
  )

  -- A thread whose slice is over goes to the end of the queue.
  pub switch_requeue :
      laws.Queues c.pool.scheduler q
      → InStep c.pool.threads q (some c.current.tid)
      → Returns
          (λ c'.
            IsValid sch laws c' (q ++ c.current.tid ∷ [])
            × Idles sch c c' sp
            × (c'.released ≡ c.released)
            × ((c'.pool.threads c.current.tid) ≡ record slot { thread = saved; status = ready }))
          (switch_to_idle sch c sp)
  switch_requeue queue slots =
      let fresh = Slots.not-queued_running c.pool.threads q c.current.tid slots in
      let (bound, taken, runs) = slots.live c.current.tid refl in
      let (s, pushed, laid) =
        Returns-inv (laws.push-snoc c.pool.scheduler c.current.tid q queue bound fresh) in
      Returns-ok (switch-eq_requeue s taken runs pushed) (
        record {
          queue = laid.0;
          slots = Slots.InStep-requeue c.pool.threads q c.current.tid saved slots;
          timed = λ i e. cc;
        },
        (refl, refl, refl),
        refl,
        ground arith,
      )

  -- A thread that has exited gives its kernel stack back.
  pub switch_release :
      slot.occupied ≡ false
      → laws.Queues c.pool.scheduler q
      → InStep c.pool.threads q none
      → Returns
          (λ c'.
            IsValid sch laws c' q
            × Idles sch c c' sp
            × (c'.released ≡ slot.thread.kstack ∷ c.released)
            × (c'.pool ≡ c.pool))
          (switch_to_idle sch c sp)
  switch_release free queue slots =
      Returns-ok (switch-eq_release free)
        (record { queue = queue; slots = slots; timed = λ i e. cc }, (refl, refl, refl), refl, refl)
