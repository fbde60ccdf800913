-- ===== src/Processor/Exit.antt =====
-- `exitFromCPU`: the end of a thread.
use moonix.Base.{
  ℕ, ◌<◌, ◌≡◌, ◌≢◌, refl, ap, ◌∙◌, true, false, Option, none, some, List, [], ◌∷◌, ◌++◌, update,
  arith, Returns, Returns-inv, Returns-mono, ◌>>=◌,
}
use moonix.Thread.{ThreadInfo, ready, sleeping}
use moonix.Scheduler.{max_thread}
use moonix.Scheduler.Interface.{Scheduler, Laws}
use moonix.Processor.{ThreadPool, Processor, wake_waiter, exit_from_cpu, switch_to_idle}
use moonix.Processor.Slots
use moonix.Processor.Slots.{InStep}
use moonix.Processor.Invariant.{IsValid}
use moonix.Processor.Switch.{Idles, switch_release}
use moonix.Processor.Steps.{wakeup-eq}

-- The thread that waits for an exit, if any, sleeps.
abbrev pub Awaited : (ℕ → ThreadInfo) → Option ℕ → Type 0
Awaited slots none = Unit
Awaited slots (some w) =
    (w < max_thread) × ((slots w).occupied ≡ true) × ((slots w).status ≡ sleeping)

-- The queue with the thread that is woken, if any, at its end.
abbrev pub behind : List ℕ → Option ℕ → List ℕ
behind q none = q
behind q (some w) = q ++ w ∷ []

module _ (sch : Scheduler) (laws : Laws sch) (c : Processor sch) (sp : ℕ) (q : List ℕ) where
  abbrev slots : ℕ → ThreadInfo
  slots = c.pool.threads

  gone : Processor sch
  gone = record c {
    pool = record {
      threads = update slots c.current.tid (record (slots c.current.tid) { occupied = false });
      scheduler = sch.exit c.pool.scheduler c.current.tid;
    };
  }

  -- What an exit makes of the processor.
  abbrev pub Exited : Processor sch → Type 0
  Exited c' =
      IsValid sch laws c' (behind q c.current.thread.wait)
      × Idles sch c c' sp
      × (c'.released ≡ (slots c.current.tid).thread.kstack ∷ c.released)
      × ((c'.pool.threads c.current.tid).occupied ≡ false)

  gone_slot :
      (gone.pool.threads c.current.tid ≡ record (slots c.current.tid) { occupied = false })
      × (gone.released ≡ c.released)
      × (gone.current ≡ c.current)
      × (gone.pool.scheduler ≡ sch.exit c.pool.scheduler c.current.tid)
  unfolding gone
  gone_slot = (ground arith, refl, refl, refl)

  gone-InStep : IsValid sch laws c q → c.occupied ≡ true → InStep gone.pool.threads q none
  unfolding gone
  gone-InStep v busy = Slots.InStep-exit slots q c.current.tid (rw busy at v.slots)

  -- The processor once the waiting thread is queued.
  woken : ℕ → sch.State → Processor sch
  woken w s = record gone {
    pool = record {
      threads = update gone.pool.threads w (record (gone.pool.threads w) { status = ready });
      scheduler = s;
    };
  }

  woken_slot :
      (w : ℕ) (s : sch.State)
      → w ≢ c.current.tid
      → (woken w s).pool.threads c.current.tid ≡ record (slots c.current.tid) { occupied = false }
  unfolding woken gone
  woken_slot w s ne = ground arith

  gone_other : (w : ℕ) → w ≢ c.current.tid → gone.pool.threads w ≡ slots w
  unfolding gone
  gone_other w ne = ground arith

  exits :
      (w : Option ℕ)
      → IsValid sch laws c q
      → c.occupied ≡ true
      → Awaited slots w
      → Returns
          (λ c'.
            IsValid sch laws c' (behind q w)
            × Idles sch c c' sp
            × (c'.released ≡ (slots c.current.tid).thread.kstack ∷ c.released)
            × ((c'.pool.threads c.current.tid).occupied ≡ false))
          (wake_waiter sch gone w >>= λ c'. switch_to_idle sch c' sp)
  unfolding gone woken wake_waiter
  exits none v busy a =
      Returns-mono
        (switch_release sch laws gone sp q (ground arith)
          (laws.exit_kept c.pool.scheduler c.current.tid q v.queue) (gone-InStep v busy))
        λ c' r. (
          r.0,
          r.1,
          r.2 ∙ ap (λ (x : ThreadInfo). x.thread.kstack ∷ c.released) gone_slot.0,
          ap (λ (p : ThreadPool sch). (p.threads c.current.tid).occupied) r.3
              ∙ ap (λ (x : ThreadInfo). x.occupied) gone_slot.0,
        )
  exits (some w) v busy (bound, taken, sleeps) =
      let mine : InStep slots q (some c.current.tid) = rw busy at v.slots in
      let other : w ≢ c.current.tid = ground (arith, mine.live c.current.tid) in
      let step = gone-InStep v busy in
      let same = gone_other w other in
      let asleep : (gone.pool.threads w).status ≡ sleeping = rw same sleeps in
      let held : (gone.pool.threads w).occupied ≡ true = rw same taken in
      let fresh = Slots.not-queued_sleeping gone.pool.threads q w none step asleep in
      let (s, pushed, laid) = Returns-inv (
        laws.push-snoc gone.pool.scheduler w q
          (laws.exit_kept c.pool.scheduler c.current.tid q v.queue) bound fresh) in
      rw (wakeup-eq sch laws gone w s pushed) (
        Returns-mono
          (switch_release sch laws (woken w s) sp (q ++ w ∷ [])
            (ap (λ (x : ThreadInfo). x.occupied) (woken_slot w s other)) laid.0
            (Slots.InStep-wake gone.pool.threads q w none step bound held asleep))
          λ c' r. (
            r.0,
            r.1,
            r.2 ∙ ap (λ (x : ThreadInfo). x.thread.kstack ∷ c.released) (woken_slot w s other),
            ap (λ (p : ThreadPool sch). (p.threads c.current.tid).occupied) r.3
                ∙ ap (λ (x : ThreadInfo). x.occupied) (woken_slot w s other),
          ))

  -- A thread that exits leaves its slot free, its kernel stack is released, and the thread that
  -- waits for it goes to the end of the queue.
  pub exit_from_cpu-Exited :
      IsValid sch laws c q
      → c.occupied ≡ true
      → Awaited slots c.current.thread.wait
      → Returns Exited (exit_from_cpu sch c sp)
  unfolding exit_from_cpu gone
  exit_from_cpu-Exited v busy a = exits c.current.thread.wait v busy a
