-- ===== src/Heap/Free.antt =====
-- `buddyFree` (kernel/heap.c): which node it frees, and what the tree is after.
use mathlib.Core.Path.{subst}
use moonix.Base.{
  ℕ, zero, suc, ◌+◌, ◌-◌, ◌*◌, ◌≤◌, ◌<◌, ◌≡◌, ◌≢◌, refl, arith, ap, sym, ◌∙◌, inl, inr, ◌==◌,
  update, true, false, Option, some, none, same_or_not,
}
use moonix.Heap.{BuddyTree, left_leaf, right_leaf, parent, find_up, free_at, buddy_free}
use moonix.Heap.Bits.{pow2, pow2-pos}
use moonix.Heap.Climb.{set-IsBuddyBelow, climb_merge-IsBuddy}
use moonix.Heap.Invariant.{wide, IsNode, IsBuddyBelow, IsBuddy, Handed, halves, tall}
use moonix.Heap.Nodes.{height, child_cases, pow2-height_child, node_range}

-- The search from a leaf up ends at the lowest node above it that has been handed out.
pub data Found (k : ℕ) (l : ℕ → ℕ) : Option (ℕ × ℕ) → Type 0 where
  not_found : Found k l none
  found : {j s : ℕ} → j + 1 < pow2 k * 2 → s ≡ wide k j → Handed k l j → Found k l (some (j, s))

handed :
    (k : ℕ) (l : ℕ → ℕ) (i : ℕ)
    → IsBuddy k l
    → l i ≡ 0
    → (l i ≡ 0 → i + 1 < pow2 k → l (left_leaf i) + l (right_leaf i) ≢ 0)
    → i + 1 < pow2 k
    → l (left_leaf i) ≢ 0
handed k l i holds e below h z =
    let pos = pow2-pos (height k i) in
    let pos' = pow2-pos (height k (left_leaf i)) in
    let some_free = below e h in
    elim (holds.inner i h (inl refl)) [
      | inl s ↦ absurd (ground arith)
      | inr (own, full, full') ↦ absurd (omega arith)
    ]

at_parent :
    (k : ℕ) (l : ℕ → ℕ) (i : ℕ)
    → IsBuddy k l
    → i + 1 < pow2 k * 2
    → 0 < i
    → l i ≢ 0
    → l (parent i) ≡ 0
    → parent i + 1 < pow2 k
    → l (left_leaf (parent i)) + l (right_leaf (parent i)) ≢ 0
at_parent k l i holds inside pos n e h z = elim (child_cases i pos) [
  | inl c ↦ n (ap l c ∙ omega arith)
  | inr c ↦ n (ap l c ∙ omega arith)
]

pub find_up-Found :
    (fuel k : ℕ) (l : ℕ → ℕ) (i s : ℕ)
    → i + 1 < pow2 k * 2
    → s ≡ wide k i
    → (l i ≡ 0 → i + 1 < pow2 k → l (left_leaf i) + l (right_leaf i) ≢ 0)
    → IsBuddy k l
    → Found k l (find_up fuel l i s)
unfolding find_up
find_up-Found zero k l i s inside w below holds = not_found
find_up-Found (suc fuel) k l i s inside w below holds =
    elim (same_or_not (l i) 0) as (λ x. Found k l (find_up (suc fuel) l i s)) [
      | inl e ↦
          let yes : l i == 0 ≡ true = ground arith in
          rw yes (found inside w (e, handed k l i holds e below))
      | inr n ↦
          let no : l i == 0 ≡ false = ground arith in
          elim (same_or_not i 0) as (λ x. Found k l (find_up (suc fuel) l i s)) [
            | inl e ↦ let top : i == 0 ≡ true = ground arith in rw (no, top) not_found
            | inr m ↦
                let not_top : i == 0 ≡ false = ground arith in
                let sized : s * 2 ≡ wide k (parent i) =
                  ap (λ z. z * 2) w
                  ∙ sym (pow2-height_child k i (omega arith) (tall k (parent i) (omega arith))) in
                rw (no, not_top)
                  (find_up-Found fuel k l (parent i) (s * 2) (omega arith) sized
                    (at_parent k l i holds inside (omega arith) n) holds)
          ]
    ]

-- A node that was handed out is free again.
give_back :
    (k : ℕ) (l : ℕ → ℕ) (j : ℕ)
    → IsBuddy k l
    → Handed k l j
    → IsBuddyBelow k (update l j (wide k j)) j
give_back k l j holds (own, left) = set-IsBuddyBelow k l j (wide k j) holds (omega arith) whole
  where
    whole : j + 1 < pow2 k → IsNode k (update l j (wide k j)) j
    whole h =
        let (twice, twice', even) = halves k j h in
        let pos = pow2-pos (height k j) in
        let busy = left h in
        elim (holds.inner j h (inl refl)) [
          | inl e ↦ absurd (ground arith)
          | inr (own', full, full') ↦ inl (ground arith)
        ]

leaf_wide : (o n i w : ℕ) → i + 1 ≡ o + n → 0 < w → (i + 2) * w ≤ n * 2 → w ≡ 1
leaf_wide o n i zero e p h = absurd (omega arith)
leaf_wide o n i (suc zero) e p h = refl
leaf_wide o n i (suc (suc w)) e p h = absurd (grind arith)

module _ (k : ℕ) (t : BuddyTree) (sized : t.size ≡ pow2 k) (holds : IsBuddy k (t.longest)) where
  free_at-IsBuddy :
      (there : Option (ℕ × ℕ)) → Found k (t.longest) there → IsBuddy k ((free_at t there).longest)
  unfolding free_at
  free_at-IsBuddy none f = holds
  free_at-IsBuddy (some (j, s)) (found inside w h) =
      climb_merge-IsBuddy j k (update (t.longest) j s) j s (omega arith) inside w (
        subst (λ z. IsBuddyBelow k (update (t.longest) j z) j) (sym w)
          (give_back k (t.longest) j holds h))

  -- `buddyFree` keeps the invariant at every block, handed out or not.
  pub buddy_free-IsBuddy :
      (offset : ℕ) → offset < pow2 k → IsBuddy k ((buddy_free t offset).longest)
  unfolding buddy_free
  buddy_free-IsBuddy offset inside =
      let leaf = offset + t.size - 1 in
      let (low, high) = node_range leaf k leaf (omega arith) (omega arith) in
      let pos = pow2-pos (height k leaf) in
      let one = leaf_wide offset (pow2 k) leaf (wide k leaf) (omega arith) pos high in
      free_at-IsBuddy _ (
        find_up-Found (offset + t.size - 1 + 1) k (t.longest) (offset + t.size - 1) 1 (omega arith)
          (sym one) (λ z h. absurd (omega arith)) holds)
