-- ===== src/Processor/Steps.antt =====
-- What the operations of kernel/processor.c do to a valid processor.
use moonix.Base.{
  ℕ, ◌<◌, ◌≡◌, refl, ap, sym, ◌∙◌, true, false, none, some, List, [], ◌∷◌, ◌++◌, update, arith, ok,
  Returns, returns, Returns-ok, Returns-inv, Returns-mono, if◌then◌else◌, Bool, Bool-cases, inl,
  inr,
}
use mathlib.Core.Path.{subst}
use moonix.Thread.{ThreadInfo, ready, running, sleeping}
use moonix.Scheduler.{max_thread}
use moonix.Scheduler.Interface.{Scheduler, Laws}
use moonix.Processor.{
  Processor, acquire_from_pool, dispatch, tick_pool, tick_cpu, wakeup_cpu, yield_cpu,
  switch_to_idle,
}
use moonix.Processor.Slots
use moonix.Processor.Slots.{InStep}
use moonix.Processor.Invariant.{runner, IsValid}
use moonix.Processor.Switch.{Idles, switch_keep, switch_requeue}

some_eq : {a b : ℕ} → some a ≡ some b → a ≡ b
some_eq e = cc

module _ (sch : Scheduler) (laws : Laws sch) (c : Processor sch) where
  abbrev slots : ℕ → ThreadInfo
  slots = c.pool.threads

  module _ (sp : ℕ) where
    acquire-eq_none :
        sch.pop c.pool.scheduler ≡ (none, c.pool.scheduler)
        → acquire_from_pool sch c.pool ≡ (none, c.pool)
    unfolding acquire_from_pool
    acquire-eq_none e = rw (ap (λ p. p.0) e, acquire_from_pool) (rw (ap (λ p. p.1) e))

    acquire-eq :
        (n : ℕ)
        → (sch.pop c.pool.scheduler).0 ≡ some n
        → acquire_from_pool sch c.pool ≡ (
          some (record { tid = n; thread = (slots n).thread }),
          record {
            threads = update slots n (record (slots n) { status = running; tid = n });
            scheduler = (sch.pop c.pool.scheduler).1;
          },
        )
    unfolding acquire_from_pool
    acquire-eq n e = rw (e, acquire_from_pool)

    dispatch-eq_none : sch.pop c.pool.scheduler ≡ (none, c.pool.scheduler) → dispatch sch c sp ≡ c
    unfolding dispatch
    dispatch-eq_none e =
        rw (ap (λ p. p.0) (acquire-eq_none e), dispatch) (rw (ap (λ p. p.1) (acquire-eq_none e)))

    -- With no runnable thread a round of `idleMain` changes nothing.
    pub dispatch-nil : IsValid sch laws c [] → dispatch sch c sp ≡ c
    dispatch-nil v = dispatch-eq_none (laws.pop-nil c.pool.scheduler v.queue)

    dispatch-eq :
        (n : ℕ)
        → (sch.pop c.pool.scheduler).0 ≡ some n
        → dispatch sch c sp ≡ record c {
          pool = record {
            threads = update slots n (record (slots n) { status = running; tid = n });
            scheduler = (sch.pop c.pool.scheduler).1;
          };
          idle = record (c.idle) { context_addr = sp };
          current = record { tid = n; thread = record ((slots n).thread) { context_addr = 0 } };
          occupied = true;
        }
    unfolding dispatch
    dispatch-eq n e =
        rw (ap (λ p. p.0) (acquire-eq n e), dispatch) (rw (ap (λ p. p.1) (acquire-eq n e)))

    -- A round of `idleMain` gives the processor to the thread that has waited longest, with the
    -- thread as its slot keeps it, and takes it off the queue.
    pub dispatch-cons :
        (n : ℕ) (q : List ℕ)
        → IsValid sch laws c (n ∷ q)
        → c.occupied ≡ false
        → IsValid sch laws (dispatch sch c sp) q
          × (runner sch laws (dispatch sch c sp) ≡ some n)
          × ((dispatch sch c sp).current.thread ≡ record ((slots n).thread) { context_addr = 0 })
    dispatch-cons n q v idle =
        let (popped, queue, runs) = laws.pop-cons c.pool.scheduler n q v.queue in
        let before : InStep slots (n ∷ q) none = rw idle at v.slots in
        rw (dispatch-eq n popped) (
          record {
            queue = queue;
            slots =
                Slots.InStep-acquire slots q n before (laws.distinct c.pool.scheduler n q v.queue);
            timed = λ i e. subst (laws.Runs (sch.pop c.pool.scheduler).1) (some_eq e) runs;
          },
          refl,
          refl,
        )

    -- What a tick makes of the processor, by what the scheduler says of the time slice.
    abbrev pub Ticked : List ℕ → Bool → Processor sch → Type 0
    Ticked q true c' =
        IsValid sch laws c' (q ++ c.current.tid ∷ [])
        × Idles sch c c' sp
        × (c'.pool.threads c.current.tid ≡ record (slots c.current.tid) {
          thread = record (c.current.thread) { context_addr = sp };
          status = ready;
        })
    Ticked q false c' =
        IsValid sch laws c' q × (runner sch laws c' ≡ runner sch laws c) × (c'.current ≡ c.current)

    ticked : Processor sch
    ticked = record c { pool = record (c.pool) { scheduler = (sch.tick c.pool.scheduler).1 } }

    tick-eq :
        c.occupied ≡ true
        → tick_cpu sch c sp
          ≡ (if (sch.tick c.pool.scheduler).0 then switch_to_idle sch ticked sp else ok ticked)
    unfolding tick_cpu tick_pool ticked
    tick-eq busy = rw busy

    ticked-IsValid :
        (q : List ℕ) → IsValid sch laws c q → c.occupied ≡ true → IsValid sch laws ticked q
    unfolding ticked
    ticked-IsValid q v busy =
        let mine : runner sch laws c ≡ some c.current.tid = rw busy in
        let fresh = Slots.not-queued_running slots q c.current.tid (rw busy at v.slots) in
        let kept =
          laws.tick_kept c.pool.scheduler c.current.tid q v.queue (v.timed c.current.tid mine)
            fresh in
        record {
          queue = kept.0;
          slots = v.slots;
          timed = λ i e.
              subst (laws.Runs (sch.tick c.pool.scheduler).1) (some_eq (sym mine ∙ e)) kept.1;
        }

    -- A tick of the clock takes the processor from a thread exactly if its slice is over; the
    -- thread then goes to the end of the queue, and otherwise runs on.
    pub tick_cpu-Ticked :
        (q : List ℕ)
        → IsValid sch laws c q
        → c.occupied ≡ true
        → Returns (Ticked q (sch.tick c.pool.scheduler).0) (tick_cpu sch c sp)
    unfolding ticked
    tick_cpu-Ticked q v busy = elim (Bool-cases (sch.tick c.pool.scheduler).0) [
      | inl over ↦
          let w = ticked-IsValid q v busy in
          rw (tick-eq busy, over)
            (Returns-mono (switch_requeue sch laws ticked sp q w.queue (rw busy at w.slots))
              λ c' r. (r.0, r.1, r.3))
      | inr more ↦ rw (tick-eq busy, more) (returns (ticked-IsValid q v busy, refl, refl))
    ]

    -- While the idle thread has the processor a tick changes nothing.
    pub tick_cpu_idle : c.occupied ≡ false → tick_cpu sch c sp ≡ ok c
    unfolding tick_cpu tick_pool
    tick_cpu_idle idle = rw idle

    asleep : Processor sch
    asleep = record c {
      pool = record (c.pool) {
        threads = update slots c.current.tid (record (slots c.current.tid) { status = sleeping });
      };
    }

    asleep_slot :
        asleep.pool.threads c.current.tid ≡ record (slots c.current.tid) { status = sleeping }
    unfolding asleep
    asleep_slot = ground arith

    yield-eq : c.occupied ≡ true → yield_cpu sch c sp ≡ switch_to_idle sch asleep sp
    unfolding yield_cpu asleep
    yield-eq busy = rw busy

    -- A thread that yields sleeps in its slot, out of the queue, with its context saved there.
    pub yield_cpu-sleeps :
        (q : List ℕ)
        → IsValid sch laws c q
        → c.occupied ≡ true
        → Returns
            (λ c'.
              IsValid sch laws c' q
              × Idles sch c c' sp
              × (c'.released ≡ c.released)
              × (c'.pool.threads c.current.tid ≡ record (slots c.current.tid) {
                thread = record (c.current.thread) { context_addr = sp };
                status = sleeping;
              }))
            (yield_cpu sch c sp)
    unfolding asleep
    yield_cpu-sleeps q v busy =
        let mine : InStep slots q (some c.current.tid) = rw busy at v.slots in
        let taken : (slots c.current.tid).occupied ≡ true = (mine.live c.current.tid refl).1 in
        rw (yield-eq busy) (
          Returns-mono
            (switch_keep sch laws asleep sp q (rw asleep_slot taken) (rw asleep_slot) v.queue
              (Slots.InStep-sleep slots q c.current.tid mine))
            λ c' r. (r.0, r.1, r.2, rw asleep_slot at r.3))

  pub wakeup-eq :
      (n : ℕ) (s : sch.State)
      → sch.push c.pool.scheduler n ≡ ok s
      → wakeup_cpu sch c n
        ≡ ok (record c {
          pool = record {
            threads = update slots n (record (slots n) { status = ready });
            scheduler = s;
          };
        })
  unfolding wakeup_cpu
  wakeup-eq n s pushed = rw pushed

  -- `wakeupCPU` of a sleeping thread marks it ready and puts it at the end of the queue; the
  -- thread that has the processor keeps it.
  pub wakeup_cpu-queues :
      (n : ℕ) (q : List ℕ)
      → IsValid sch laws c q
      → n < max_thread
      → (slots n).occupied ≡ true
      → (slots n).status ≡ sleeping
      → Returns
          (λ c'.
            IsValid sch laws c' (q ++ n ∷ [])
            × (runner sch laws c' ≡ runner sch laws c)
            × (c'.pool.threads ≡ update slots n (record (slots n) { status = ready }))
            × (c'.current ≡ c.current)
            × (c'.released ≡ c.released))
          (wakeup_cpu sch c n)
  wakeup_cpu-queues n q v bound taken sleeps =
      let fresh = Slots.not-queued_sleeping slots q n (runner sch laws c) v.slots sleeps in
      let (s, pushed, laid) =
        Returns-inv (laws.push-snoc c.pool.scheduler n q v.queue bound fresh) in
      Returns-ok (wakeup-eq n s pushed) (
        record {
          queue = laid.0;
          slots = Slots.InStep-wake slots q n (runner sch laws c) v.slots bound taken sleeps;
          timed = λ i e. laid.1 i (v.timed i e);
        },
        refl,
        refl,
        refl,
        refl,
      )
