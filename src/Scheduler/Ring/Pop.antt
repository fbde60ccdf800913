-- ===== src/Scheduler/Ring/Pop.antt =====
-- `schedulerPop` takes the first thread off the queue.
use moonix.Base.{
  ℕ, suc, ◌^◌, ◌<◌, ◌≡◌, ◌≢◌, refl, none, some, List, [], ◌∷◌, map, arith, has, false,
}
use moonix.Scheduler.{RrScheduler, unlink, scheduler_pop}
use moonix.Scheduler.Ring.{Chain, Holds}
use moonix.Scheduler.Ring.Frame.{Chain-frame, Chain-fresh, has-map-suc}

-- The first thread of the queue is not in it a second time.
pub head_distinct : (s : RrScheduler) (n : ℕ) (q : List ℕ) → Holds s (n ∷ q) → has n q ≡ false
head_distinct s n q h =
    ground (arith, Chain-fresh s.threads (suc n) (map suc q) h.chain.3, has-map-suc n q)

-- An empty queue gives -1 and stays as it is.
pub pop-nil : (s : RrScheduler) → Holds s [] → scheduler_pop s ≡ (none, s)
unfolding scheduler_pop
pop-nil s h = ground (arith, h.chain.0)

module _ (s : RrScheduler) (x : ℕ) where
  -- The entries behind the popped one and its successor are not written.
  unlink_at :
      (a : ℕ)
      → x ≢ a
      → (s.threads x).next ≢ a
      → (s.threads x).prev ≢ a
      → (unlink s x).threads a ≡ s.threads a
  unfolding unlink
  unlink_at a b c d = ground arith

  Chain-unlink : (xs : List ℕ) → Chain s.threads 0 (x ∷ xs) → Chain (unlink s x).threads 0 xs
  unfolding unlink
  Chain-unlink [] (a, b, c, d) =
      (ground (arith, c.back, c.positive), ground (arith, c.back, c.positive))
  Chain-unlink (y ∷ ys) (a, b, c, d) = (
    ground (arith, c.back, c.positive),
    ground arith,
    record {
      back = ground (arith, c.back, c.positive, d.2.positive);
      positive = d.2.positive;
      bounded = d.2.bounded;
      flagged = ground (arith, c.back, c.positive, d.2.positive, d.2.flagged);
      slice = ground (arith, c.back, c.positive, d.2.positive, d.2.slice);
    },
    Chain-frame s.threads (unlink s x).threads y ys d.3 (ground (arith, c.back, d.2.positive))
        (ground (arith, c.back, c.positive, d.2.positive))
        (λ z h.
          unlink_at z (ground arith) (ground (arith, Chain-fresh s.threads y ys d.3))
            (ground (arith, c.back))),
  )

  unlink-words :
      ((i : ℕ) → (s.threads i).time < 2 ^ 64) → (i : ℕ) → ((unlink s x).threads i).time < 2 ^ 64
  unfolding unlink
  unlink-words h i = ground (arith, h i)

  unlink_fields : ((unlink s x).current ≡ x) × ((unlink s x).max_time ≡ s.max_time)
  unfolding unlink
  unlink_fields = (refl, refl)

pop_step :
    (s : RrScheduler) (n : ℕ)
    → (s.threads 0).next ≡ suc n
    → scheduler_pop s ≡ (some n, unlink s (suc n))
unfolding scheduler_pop
pop_step s n e = ground arith

-- `schedulerPop` gives the first thread, makes it current, and leaves the others in their order.
pub pop-cons :
    (s : RrScheduler) (n : ℕ) (q : List ℕ)
    → Holds s (n ∷ q)
    → ((scheduler_pop s).0 ≡ some n)
      × Holds (scheduler_pop s).1 q
      × ((scheduler_pop s).1.current ≡ suc n)
pop-cons s n q h =
    let fields = unlink_fields s (suc n) in
    rw (pop_step s n h.chain.0) (
      refl,
      record {
        chain = Chain-unlink s (suc n) (map suc q) h.chain;
        quantum = omega (arith, fields.1, h.quantum);
        words = unlink-words s (suc n) h.words;
      },
      fields.0,
    )
