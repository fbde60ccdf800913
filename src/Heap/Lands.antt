-- ===== src/Heap/Lands.antt =====
-- The search of `buddyFree` (kernel/heap.c) from the first block of a run that `buddyAlloc` has just
-- handed out ends at the node of that run.
use mathlib.Core.Path.{subst}
use moonix.Base.{
  ℕ, zero, suc, ◌+◌, ◌-◌, ◌*◌, ◌≤◌, ◌<◌, ◌≡◌, refl, arith, sym, inl, inr, ◌==◌, true, false, some,
}
use moonix.Heap.{left_leaf, right_leaf, parent, find_up}
use moonix.Heap.Bits.{pow2, pow2-pos}
use moonix.Heap.Invariant.{wide, IsBuddy, halves}
use moonix.Heap.Undo.{sums_up}
use moonix.Heap.Nodes.{height, child_cases, up}

run_parent : (a w : ℕ) → parent (a * (w * 2) - 1) ≡ a * w - 1
run_parent a w = let twice : a * (w * 2) ≡ a * w * 2 = grind arith in rw twice (halved (a * w))
  where
    halved : (x : ℕ) → parent (x * 2 - 1) ≡ x - 1
    halved zero = omega arith
    halved (suc x) = omega arith

run_big : (a w : ℕ) → 0 < a → 0 < w → (a < a * (w * 2)) × (a * w * 2 ≡ a * (w * 2))
run_big a w h p = (grind arith, grind arith)

module _ (k : ℕ) (l : ℕ → ℕ) (holds : IsBuddy k l) where
  whole_child :
      (i : ℕ) → i + 1 < pow2 k * 2 → 0 < i → l (parent i) ≡ wide k (parent i) → l i ≡ wide k i
  whole_child i h pos e =
      let p = parent i in
      let (twice, twice', even) = halves k p (omega arith) in
      let left = holds.bounded (left_leaf p) (omega arith) in
      let right = holds.bounded (right_leaf p) (omega arith) in
      let some_run = pow2-pos (height k (left_leaf p)) in
      let both : (l (left_leaf p) ≡ wide k (left_leaf p))
          × (l (right_leaf p) ≡ wide k (right_leaf p)) =
        let sum = sums_up k l holds p (omega arith) (λ z. absurd (omega arith)) in
        (ground arith, ground arith) in
      elim (child_cases i pos) [
        | inl c ↦ subst (λ j. l j ≡ wide k j) (sym c) (both.0)
        | inr c ↦ subst (λ j. l j ≡ wide k j) (sym c) (both.1)
      ]

  -- The nodes below a free run are free runs.
  whole_below : (d i : ℕ) → i + 1 < pow2 k * 2 → l (up d i) ≡ wide k (up d i) → l i ≡ wide k i
  unfolding up
  whole_below zero i h e = e
  whole_below (suc d) zero h e = whole_below d zero h e
  whole_below (suc d) (suc i) h e =
      whole_child (suc i) h (omega arith) (whole_below d (parent (suc i)) (omega arith) e)

up_run : (d a : ℕ) → 0 < a → up d (a * pow2 d - 1) ≡ a - 1
unfolding up pow2
up_run zero a h = omega arith
up_run (suc d) a h =
    let above : parent (a * (pow2 d * 2) - 1) ≡ a * pow2 d - 1 = run_parent a (pow2 d) in
    rw above (up_run d a h)

-- The search up from the first block of a run that was free and is handed out now.
module _ (k : ℕ) (l l' : ℕ → ℕ) (holds : IsBuddy k l) (a : ℕ) (pos : 0 < a)
    (free : l (a - 1) ≡ wide k (a - 1)) (taken : l' (a - 1) ≡ 0)
    (same : (i : ℕ) → a ≤ i → l' i ≡ l i) where
  pub find_up-lands :
      (d fuel s : ℕ)
      → d < fuel
      → a * pow2 d < pow2 k * 2
      → find_up fuel l' (a * pow2 d - 1) s ≡ some (a - 1, s * pow2 d)
  unfolding find_up pow2
  find_up-lands d zero s b inside = absurd (omega arith)
  find_up-lands zero (suc fuel) s b inside =
      let here : a * 1 - 1 ≡ a - 1 = omega arith in
      let once : s * 1 ≡ s = omega arith in
      let found : l' (a - 1) == 0 ≡ true = ground arith in rw (here, once, found) refl
  find_up-lands (suc d) (suc fuel) s b inside =
      let i = a * (pow2 d * 2) - 1 in
      let above : parent i ≡ a * pow2 d - 1 = run_parent a (pow2 d) in
      let big = run_big a (pow2 d) pos (pow2-pos d) in
      let whole =
        whole_below k l holds (suc d) i (omega arith)
          (subst (λ j. l j ≡ wide k j) (sym (up_run (suc d) a pos)) free) in
      let some_run = pow2-pos (height k i) in
      let kept = same i (omega arith) in
      let no : l' i == 0 ≡ false = ground arith in
      let no' : i == 0 ≡ false = ground arith in
      let twice : s * (pow2 d * 2) ≡ s * 2 * pow2 d = grind arith in
      rw (no, no', above, twice) (find_up-lands d fuel (s * 2) (omega arith) (omega arith))
