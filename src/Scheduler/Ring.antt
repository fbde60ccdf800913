-- ===== src/Scheduler/Ring.antt =====
-- What the array of kernel/rrscheduler.c stands for: the queue of runnable threads, in order.
pub mod Frame
pub mod Push
pub mod Pop
pub mod Rounds
pub mod Tick
use moonix.Base.{ℕ, suc, ◌≤◌, ◌<◌, ◌^◌, ◌≡◌, false, List, [], ◌∷◌, map, has, IsDistinct}
use moonix.Scheduler.{RrInfo, RrScheduler, max_thread}

-- What holds of an entry that is in the ring, behind entry `p`.
pub record IsQueued (t : ℕ → RrInfo) (p x : ℕ) : Type 0 where
  pub back : (t x).prev ≡ p
  pub positive : 0 < x
  pub bounded : x ≤ max_thread
  pub flagged : (t x).valid ≡ 1
  pub slice : 0 < (t x).time

-- From entry `p` the `next` links lead through the entries `xs`, all different, back to entry 0,
-- and the `prev` links lead the same way back.
abbrev pub Chain : (ℕ → RrInfo) → ℕ → List ℕ → Type 0
Chain t p [] = ((t p).next ≡ 0) × ((t 0).prev ≡ p)
Chain t p (x ∷ xs) = ((t p).next ≡ x) × (has p (x ∷ xs) ≡ false) × IsQueued t p x × Chain t x xs

-- The scheduler holds exactly the runnable threads `q`, the next one first.
pub record Holds (s : RrScheduler) (q : List ℕ) : Type 0 where
  pub chain : Chain s.threads 0 (map suc q)
  pub quantum : s.max_time ≡ 1
  pub words : (i : ℕ) → (s.threads i).time < 2 ^ 64
