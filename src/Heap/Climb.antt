-- ===== src/Heap/Climb.antt =====
-- The climbs of `buddyAlloc` and `buddyFree` (kernel/heap.c): each round brings one more node up
-- to date, and at the root the invariant holds again.
use Prim.Native.Nat.{max}
use mathlib.Core.Path.{subst}
use moonix.Base.{
  ℕ, zero, suc, ◌+◌, ◌*◌, ◌≤◌, ◌<◌, ◌≡◌, ◌≢◌, refl, arith, ap, sym, ◌∙◌, inl, inr, same_or_not,
  ◌==◌, update, false,
}
use moonix.Heap.{left_leaf, right_leaf, parent, climb_max, climb_merge}
use moonix.Heap.Bits.{pow2, pow2-pos}
use moonix.Heap.Nodes.{height, child_cases, pow2-height_child}
use moonix.Heap.Invariant.{wide, merged, IsNode, IsBuddyBelow, IsBuddy, halves, tall}

-- Setting a node leaves what the nodes that do not see it say.
update-IsNode :
    (k : ℕ) (l : ℕ → ℕ) (j v i : ℕ)
    → i ≢ j
    → left_leaf i ≢ j
    → right_leaf i ≢ j
    → IsNode k l i
    → IsNode k (update l j v) i
update-IsNode k l j v i a b c (inl e) = inl (ground arith)
update-IsNode k l j v i a b c (inr e) = inr (ground arith)

module _ (k : ℕ) (l : ℕ → ℕ) (c : ℕ) (inside : c + 1 < pow2 k * 2) (above : 0 < c)
    (holds : IsBuddyBelow k l c) where
  pub children_bounded :
      (wide k (parent c) ≡ wide k (left_leaf (parent c)) * 2)
      × (wide k (left_leaf (parent c)) ≡ wide k (right_leaf (parent c)))
      × (l (left_leaf (parent c)) ≤ wide k (left_leaf (parent c)))
      × (l (right_leaf (parent c)) ≤ wide k (right_leaf (parent c)))
  children_bounded =
      let (whole, both, even) = halves k (parent c) (omega arith) in
      (
        whole,
        even,
        holds.bounded (left_leaf (parent c)) (omega arith),
        holds.bounded (right_leaf (parent c)) (omega arith),
      )

  module _ (v : ℕ)
      (e : v
        ≡ merged (wide k (parent c)) (l (left_leaf (parent c))) (l (right_leaf (parent c)))) where
    raised_bounded : v ≤ wide k (parent c)
    raised_bounded = let b = children_bounded in ground arith

    raised_inner : IsNode k (update l (parent c) v) (parent c)
    raised_inner = inl (ground arith)

    pub raise : IsBuddyBelow k (update l (parent c) v) (parent c)
    raise = record {
      bounded = λ i h.
          let below = holds.bounded i h in
          elim (same_or_not (parent c) i) [
            | inl e' ↦
                subst (λ j. update l (parent c) v j ≤ wide k j) e' (ground (arith, raised_bounded))
            | inr n ↦ ground arith
          ];
      inner = λ i h gap. elim (same_or_not (parent c) i) [
        | inl e' ↦ subst (IsNode k (update l (parent c) v)) e' raised_inner
        | inr n ↦
            update-IsNode k l (parent c) v i (λ z. n (sym z)) (λ z. absurd (ground arith))
              (λ z. absurd (ground arith)) (holds.inner i h (inr (λ z. n (sym z))))
      ];
    }

-- Setting any node leaves those above it to be brought up to date.
pub set-IsBuddyBelow :
    (k : ℕ) (l : ℕ → ℕ) (j v : ℕ)
    → IsBuddy k l
    → v ≤ wide k j
    → (j + 1 < pow2 k → IsNode k (update l j v) j)
    → IsBuddyBelow k (update l j v) j
set-IsBuddyBelow k l j v holds fits own = record {
  bounded = λ i h.
      let b = holds.bounded i h in
      elim (same_or_not j i) [
        | inl e ↦ subst (λ i'. update l j v i' ≤ wide k i') e (ground arith)
        | inr n ↦ ground arith
      ];
  inner = λ i h gap. elim (same_or_not j i) [
    | inl e ↦ subst (IsNode k (update l j v)) e (own (omega arith))
    | inr n ↦
        update-IsNode k l j v i (λ z. n (sym z)) (λ z. absurd (ground arith))
          (λ z. absurd (ground arith)) (holds.inner i h (inl refl))
  ];
}

-- `MAX` says the same as merging while one of the halves is not free.
max_is_merged :
    (k : ℕ) (l : ℕ → ℕ) (c : ℕ)
    → (inside : c + 1 < pow2 k * 2) → (above : 0 < c) → IsBuddyBelow k l c
    → l c < wide k c
    → let p = parent c in
      let v = max (l (left_leaf p)) (l (right_leaf p)) in
      (v ≡ merged (wide k p) (l (left_leaf p)) (l (right_leaf p))) × (v < wide k p)
max_is_merged k l c inside above holds less =
    let b = children_bounded k l c inside above holds in
    let pos = pow2-pos (height k (left_leaf (parent c))) in
    elim (child_cases c above) [
      | inl e ↦ let less' = subst (λ j. l j < wide k j) e less in (ground arith, ground arith)
      | inr e ↦ let less' = subst (λ j. l j < wide k j) e less in (ground arith, ground arith)
    ]

pub climb_max-IsBuddy :
    (fuel k : ℕ) (l : ℕ → ℕ) (c : ℕ)
    → c ≤ fuel
    → c + 1 < pow2 k * 2
    → IsBuddyBelow k l c
    → l c < wide k c
    → IsBuddy k (climb_max fuel l c)
unfolding climb_max
climb_max-IsBuddy zero k l zero b inside holds less = holds
climb_max-IsBuddy zero k l (suc c) b inside holds less = absurd (omega arith)
climb_max-IsBuddy (suc fuel) k l zero b inside holds less = holds
climb_max-IsBuddy (suc fuel) k l (suc c) b inside holds less =
    let p = parent (suc c) in
    let v = max (l (left_leaf p)) (l (right_leaf p)) in
    let (e, small) = max_is_merged k l (suc c) inside (omega arith) holds less in
    let no : suc c == 0 ≡ false = ground arith in
    let rest =
      climb_max-IsBuddy fuel k (update l p v) p (omega arith) (omega arith)
        (raise k l (suc c) inside (omega arith) holds v e) (ground arith) in
    rw no rest

pub climb_merge-IsBuddy :
    (fuel k : ℕ) (l : ℕ → ℕ) (c node_size : ℕ)
    → c ≤ fuel
    → c + 1 < pow2 k * 2
    → node_size ≡ wide k c
    → IsBuddyBelow k l c
    → IsBuddy k (climb_merge fuel l c node_size)
unfolding climb_merge
climb_merge-IsBuddy zero k l zero s b inside w holds = holds
climb_merge-IsBuddy zero k l (suc c) s b inside w holds = absurd (omega arith)
climb_merge-IsBuddy (suc fuel) k l zero s b inside w holds = holds
climb_merge-IsBuddy (suc fuel) k l (suc c) s b inside w holds =
    let p = parent (suc c) in
    let size = s * 2 in
    let sized : size ≡ wide k p =
      ap (λ z. z * 2) w
      ∙ sym (pow2-height_child k (suc c) (omega arith) (tall k p (omega arith))) in
    let no : suc c == 0 ≡ false = ground arith in
    let v = merged size (l (left_leaf p)) (l (right_leaf p)) in
    let rest = climb_merge-IsBuddy fuel k (update l p v) p size (omega arith) (omega arith) sized (
      raise k l (suc c) inside (omega arith) holds v
        (ap (λ z. merged z (l (left_leaf p)) (l (right_leaf p))) sized)) in
    rw no rest
