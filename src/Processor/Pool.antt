-- ===== src/Processor/Pool.antt =====
-- `allocTid` and `addToPool`: the lowest free slot of the pool.
use moonix.Base.{
  Bool, out_of_fuel, ℕ, zero, suc, ◌+◌, ◌<◌, ◌≡◌, refl, true, false, Option, none, some, List, [],
  ◌∷◌, ◌++◌, update, arith, Run, ok, panic, Returns, Returns-ok, Returns-inv,
}
use moonix.Thread.{Thread, ThreadInfo, free_fd, ready}
use moonix.Thread.Descriptors.{Lowest, free_fd-Lowest}
use moonix.Scheduler.{max_thread}
use moonix.Scheduler.Interface.{Scheduler, Laws}
use moonix.Processor.{Processor, free_tid, alloc_tid, add_to_cpu}
use moonix.Processor.Slots
use moonix.Processor.Slots.{InStep}
use moonix.Processor.Invariant.{runner, IsValid}

abbrev taken : (ℕ → ThreadInfo) → ℕ → Bool
taken slots i = (slots i).occupied

free_tid-eq :
    (slots : ℕ → ThreadInfo) (rounds i : ℕ)
    → free_tid slots rounds i ≡ free_fd (taken slots) rounds i
unfolding free_tid free_fd
free_tid-eq slots zero i = refl
free_tid-eq slots (suc rounds) i = rw (free_tid-eq slots rounds (i + 1))

free_tid-Lowest : (slots : ℕ → ThreadInfo) → Lowest (taken slots) 0 0x40 (free_tid slots 0x40 0)
free_tid-Lowest slots =
    rw (free_tid-eq slots 0x40 0) (free_fd-Lowest (taken slots) 0x40 0 0x40 refl)

-- What `allocTid` may return.
abbrev pub Allocates : (ℕ → ThreadInfo) → Run ℕ → Type 0
Allocates slots (ok k) =
    (k < max_thread) × ((slots k).occupied ≡ false) × ((j : ℕ) → j < k → (slots j).occupied ≡ true)
Allocates slots panic = (j : ℕ) → j < max_thread → (slots j).occupied ≡ true
Allocates slots out_of_fuel = ⊥

of-Lowest :
    (slots : ℕ → ThreadInfo) (o : Option ℕ)
    → Lowest (taken slots) 0 0x40 o
    → Allocates slots (elim o [ none ↦ panic | some i ↦ ok i ])
of-Lowest slots none h = λ j p. h j (omega arith) p
of-Lowest slots (some k) h = (h.1, h.2, λ j p. h.3 j (omega arith) p)

-- `allocTid` gives the lowest free slot, and panics only if all the slots are taken.
pub alloc_tid-Allocates : (slots : ℕ → ThreadInfo) → Allocates slots (alloc_tid slots)
unfolding alloc_tid
alloc_tid-Allocates slots = of-Lowest slots (free_tid slots 0x40 0) (free_tid-Lowest slots)

module _ (sch : Scheduler) (laws : Laws sch) (c : Processor sch) (q : List ℕ)
    (thread : Thread) where
  -- The processor after a new thread has been put into slot `k`.
  abbrev pub Added : ℕ → Processor sch → Type 0
  Added k c' =
      IsValid sch laws c' (q ++ k ∷ [])
      × (c'.pool.threads
          ≡ update c.pool.threads k
              (record (c.pool.threads k) { status = ready; occupied = true; thread = thread }))
      × (runner sch laws c' ≡ runner sch laws c)

  add-eq :
      (k : ℕ) (s : sch.State)
      → alloc_tid c.pool.threads ≡ ok k
      → sch.push c.pool.scheduler k ≡ ok s
      → add_to_cpu sch c thread
        ≡ ok (record c {
          pool = record {
            threads =
                update c.pool.threads k
                  (record (c.pool.threads k) { status = ready; occupied = true; thread = thread });
            scheduler = s;
          };
        })
  unfolding add_to_cpu
  add-eq k s found pushed = rw (found, add_to_cpu, pushed)

  -- With all the slots taken `addToCPU` panics.
  pub add_to_cpu-panic : alloc_tid c.pool.threads ≡ panic → add_to_cpu sch c thread ≡ panic
  unfolding add_to_cpu
  add_to_cpu-panic e = rw (e, add_to_cpu)

  pub add_to_cpu-fuel :
      alloc_tid c.pool.threads ≡ out_of_fuel → add_to_cpu sch c thread ≡ out_of_fuel
  unfolding add_to_cpu
  add_to_cpu-fuel e = rw (e, add_to_cpu)

  -- With a free slot `k` that `allocTid` gives, `addToCPU` takes it and queues the thread.
  pub add_to_cpu-Added :
      (k : ℕ)
      → IsValid sch laws c q
      → alloc_tid c.pool.threads ≡ ok k
      → Returns (Added k) (add_to_cpu sch c thread)
  add_to_cpu-Added k v found =
      let (bound, free, below) : Allocates c.pool.threads (ok k) =
        rw found at (alloc_tid-Allocates c.pool.threads) in
      let fresh = Slots.not-queued_free c.pool.threads q k (runner sch laws c) v.slots free in
      let (s, pushed, laid) =
        Returns-inv (laws.push-snoc c.pool.scheduler k q v.queue bound fresh) in
      Returns-ok (add-eq k s found pushed) (
        record {
          queue = laid.0;
          slots = Slots.InStep-add c.pool.threads q k (runner sch laws c) thread v.slots bound free;
          timed = λ i e. laid.1 i (v.timed i e);
        },
        refl,
        refl,
      )
