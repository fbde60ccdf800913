-- ===== src/Processor/Invariant.antt =====
-- The invariant of the processor.
use moonix.Base.{ℕ, ◌≡◌, Option, none, some, List, if◌then◌else◌}
use moonix.Scheduler.Interface.{Scheduler, Laws}
use moonix.Processor.{Processor}
use moonix.Processor.Slots.{InStep}

module _ (sch : Scheduler) (laws : Laws sch) where
  -- The thread that has the processor; `none` while the idle thread has it.
  abbrev pub runner : Processor sch → Option ℕ
  runner c = if c.occupied then some c.current.tid else none

  pub record IsValid (c : Processor sch) (q : List ℕ) : Type 0 where
    pub queue : laws.Queues c.pool.scheduler q
    pub slots : InStep c.pool.threads q (runner c)
    pub timed : (i : ℕ) → runner c ≡ some i → laws.Runs c.pool.scheduler i
