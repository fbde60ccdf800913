-- ===== src/Scheduler/Ring/Push.antt =====
-- `schedulerPush` appends to the queue.
use moonix.Base.{
  ℕ, suc, ◌+◌, ◌<◌, ◌≤◌, ◌≡◌, ◌≢◌, true, false, List, [], ◌∷◌, ◌++◌, map, ap, refl, panic, ◌≤◌, ◌^◌,
  has, arith, Returns, returns, has-snoc, ltb,
}
use native.Mathlib.Numerals.{add-one}
use moonix.Scheduler.{RrInfo, RrScheduler, max_thread, link, scheduler_push}
use moonix.Scheduler.Ring.{IsQueued, Chain, Holds}
use moonix.Scheduler.Ring.Frame.{has-map-suc, has-map-suc_zero}

last : ℕ → List ℕ → ℕ
last p [] = p
last p (x ∷ xs) = last x xs

last-prev : (t : ℕ → RrInfo) (p : ℕ) (xs : List ℕ) → Chain t p xs → (t 0).prev ≡ last p xs
unfolding last
last-prev t p [] c = c.1
last-prev t p (x ∷ xs) c = last-prev t x xs c.3

has-last : (p : ℕ) (x : ℕ) (xs : List ℕ) → has (last p (x ∷ xs)) (x ∷ xs) ≡ true
unfolding last
has-last p x [] = ground arith
has-last p x (y ∷ xs) = ground (arith, has-last x y xs)

module _ (s : RrScheduler) (n : ℕ) where
  link-next :
      (a : ℕ) → n ≢ a → (s.threads 0).prev ≢ a → ((link s n).threads a).next ≡ (s.threads a).next
  unfolding link
  link-next a ne out = ground arith

  -- `link` moves no other entry back, and leaves its flag and its time slice alone.
  IsQueued-link : (p x : ℕ) → n ≢ x → IsQueued s.threads p x → IsQueued (link s n).threads p x
  unfolding link
  IsQueued-link p x ne h = record {
    back = ground (arith, h.positive);
    positive = h.positive;
    bounded = h.bounded;
    flagged = ground (arith, h.positive);
    slice = ground (arith, h.positive);
  }

  link_new :
      0 < n
      → n ≤ max_thread
      → s.max_time ≡ 1
      → (((link s n).threads n).next ≡ 0)
        × (((link s n).threads 0).prev ≡ n)
        × IsQueued (link s n).threads (s.threads 0).prev n
  unfolding link
  link_new pos bound quantum = (
    ground arith,
    ground arith,
    record {
      back = ground arith;
      positive = pos;
      bounded = bound;
      flagged = ground arith;
      slice = ground arith;
    },
  )

  link-next_last :
      (p : ℕ) → 0 < n → n ≢ p → (s.threads 0).prev ≡ p → ((link s n).threads p).next ≡ n
  unfolding link
  link-next_last p pos ne e = ground arith

  Chain-link :
      (p : ℕ) (xs : List ℕ)
      → 0 < n
      → n ≤ max_thread
      → s.max_time ≡ 1
      → Chain s.threads p xs
      → has n (p ∷ xs) ≡ false
      → Chain (link s n).threads p (xs ++ n ∷ [])
  Chain-link p [] pos bound quantum c fresh =
      let new = link_new pos bound quantum in
      (link-next_last p pos (ground arith) c.1, ground arith, rw c.1 at new.2, (new.0, new.1))
  Chain-link p (x ∷ xs) pos bound quantum c fresh = (
    ground (arith, last-prev s.threads p (x ∷ xs) c, has-last p x xs, link-next p),
    ground (arith, has-snoc p n xs),
    IsQueued-link p x (ground arith) c.2,
    Chain-link x xs pos bound quantum c.3 (ground arith),
  )

map-suc-snoc : (n : ℕ) (q : List ℕ) → map suc (q ++ n ∷ []) ≡ map suc q ++ (n + 1) ∷ []
map-suc-snoc n [] = rw add-one
map-suc-snoc n (x ∷ q) = ap (◌∷◌ (suc x)) (map-suc-snoc n q)

link-max_time : (s : RrScheduler) (n : ℕ) → s.max_time ≡ 1 → (link s n).max_time ≡ 1
unfolding link
link-max_time s n h = h

link-current : (s : RrScheduler) (n : ℕ) → (link s n).current ≡ s.current
unfolding link
link-current s n = refl

link-words :
    (s : RrScheduler) (n : ℕ)
    → s.max_time ≡ 1
    → ((i : ℕ) → (s.threads i).time < 2 ^ 64)
    → (i : ℕ) → ((link s n).threads i).time < 2 ^ 64
unfolding link
link-words s n e h i = ground (arith, h i)

-- `schedulerPush` of a thread that is not in the queue puts it behind the others, and
-- leaves the running thread current.
pub push-snoc :
    (s : RrScheduler) (n : ℕ) (q : List ℕ)
    → Holds s q
    → n < max_thread
    → has n q ≡ false
    → Returns (λ s'. Holds s' (q ++ n ∷ []) × (s'.current ≡ s.current)) (scheduler_push s n)
unfolding scheduler_push
push-snoc s n q h bound fresh =
    let room : ltb (max_thread + 1) (n + 1 + 1) ≡ false = ground arith in
    let new : has (n + 1) (0 ∷ map suc q) ≡ false =
      ground
        (arith, has-map-suc n q, has-map-suc_zero q, ap (λ k. has k (map suc q)) (add-one n)) in
    rw room (
      returns (
        record {
          chain = rw (map-suc-snoc n q) (
              Chain-link s (n + 1) 0 (map suc q) (omega arith) (omega arith) h.quantum h.chain new);
          quantum = link-max_time s (n + 1) h.quantum;
          words = link-words s (n + 1) h.quantum h.words;
        },
        link-current s (n + 1),
      ))

-- `schedulerPush` refuses a thread number that has no entry.
pub push-panic : (s : RrScheduler) (n : ℕ) → max_thread ≤ n → scheduler_push s n ≡ panic
unfolding scheduler_push
push-panic s n h = ground arith
