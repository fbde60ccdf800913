-- ===== src/Heap/Init.antt =====
-- `buddyInit` (kernel/heap.c): each node starts with the length of its whole run.
use mathlib.Core.Path.{subst}
use moonix.Base.{
  ℕ, zero, suc, ◌+◌, ◌-◌, ◌*◌, ◌/◌, ◌≤◌, ◌<◌, ◌≡◌, refl, arith, ap, sym, ◌∙◌, ◌⊎◌, inl, inr,
  if◌then◌else◌, update, true, false, Bool-cases, same_or_not,
}
use moonix.Heap.{BuddyTree, left_leaf, right_leaf, parent, is_power_of_2, init_nodes, buddy_init}
use moonix.Heap.Alloc.{pow2_gap}
use moonix.Heap.Bits.{pow2, pow2-pos, pow2_of, and_double, and_odd}
use moonix.Heap.Nodes.{
  height, height-left, height-right, height-root, child_cases, node_range, pow2-pred, height-inner,
}
use moonix.Heap.Invariant.{wide, IsBuddy, halves}

is_power_of_2-double : (q : ℕ) → 0 < q → is_power_of_2 (q * 2) ≡ is_power_of_2 q
unfolding is_power_of_2
is_power_of_2-double q h = ground (arith, and_double q h)

is_power_of_2-odd : (q : ℕ) → 0 < q → is_power_of_2 (q * 2 + 1) ≡ false
unfolding is_power_of_2
is_power_of_2-odd q h = ground (arith, and_odd q)

-- The height drops at the first node of each level, where `i + 2` is a power of two.
abbrev Drops : ℕ → ℕ → Type 0
Drops k i = height k (i + 1) ≡ (if is_power_of_2 (i + 2) then height k i - 1 else height k i)

Drops-first : (k : ℕ) → Drops k 0
unfolding is_power_of_2
Drops-first k = height-left k 0

Drops-right : (k p : ℕ) → Drops k (left_leaf p)
Drops-right k p =
    let odd = is_power_of_2-odd (p + 1) (omega arith) in
    let at : left_leaf p + 2 ≡ (p + 1) * 2 + 1 = omega arith in
    let next : left_leaf p + 1 ≡ right_leaf p = omega arith in
    rw (at, odd, next) (height-right k p ∙ sym (height-left k p))

Drops-left : (k p : ℕ) → Drops k p → Drops k (right_leaf p)
Drops-left k p above =
    let even = is_power_of_2-double (p + 2) (omega arith) in
    let at : right_leaf p + 2 ≡ (p + 2) * 2 = omega arith in
    let next : right_leaf p + 1 ≡ left_leaf (p + 1) = omega arith in
    let low = height-left k (p + 1) in
    let high = height-right k p in rw (at, even, next) (ground arith)

pub drops : (fuel k i : ℕ) → i ≤ fuel → Drops k i
drops fuel k zero b = Drops-first k
drops zero k (suc i) b = absurd (omega arith)
drops (suc fuel) k (suc i) b = elim (child_cases (suc i) (omega arith)) [
  | inl e ↦ subst (Drops k) (sym e) (Drops-right k (parent (suc i)))
  | inr e ↦
      subst (Drops k) (sym e)
        (Drops-left k (parent (suc i)) (drops fuel k (parent (suc i)) (omega arith)))
]

-- How the loop's `nodeSize` relates to node `i` at the head of a round.
abbrev Enters : ℕ → ℕ → ℕ → Type 0
Enters k i s = (if is_power_of_2 (i + 1) then s / 2 else s) ≡ wide k i

-- The last node of a level above the leaves.
first_tall : (k i : ℕ) → i + 2 < pow2 k * 2 → is_power_of_2 (i + 2) ≡ true → 0 < height k i
first_tall k i inside first =
    let (m, e) = pow2_of (i + 2) (i + 2) (omega arith) (omega arith) first in
    let inner : (i + 2 ≤ pow2 k) ⊎ (pow2 k < i + 2) = omega arith in
    elim inner [
      | inl low ↦ height-inner k i (node_range i k i (omega arith) (omega arith)) (omega arith)
      | inr high ↦ absurd (omega (arith, pow2_gap k m (omega arith)))
    ]

Enters-next : (k i : ℕ) → i + 2 < pow2 k * 2 → Enters k (i + 1) (wide k i)
Enters-next k i inside =
    let step = drops i k i (omega arith) in
    let at : i + 1 + 1 ≡ i + 2 = omega arith in
    elim (Bool-cases (is_power_of_2 (i + 2))) as (λ _. Enters k (i + 1) (wide k i)) [
      | inr same ↦
          let level : height k (i + 1) ≡ height k i = ground arith in
          rw (at, same) (ap pow2 (sym level))
      | inl first ↦
          let level : height k (i + 1) ≡ height k i - 1 = ground arith in
          let halved = pow2-pred (height k i) (first_tall k i inside first) in
          rw (at, first) (rw level (omega arith))
    ]

update-same : (i s w : ℕ) (l : ℕ → ℕ) → s ≡ w → update l i s i ≡ w
update-same i s w l e = ground arith

init_nodes-lem :
    (rounds k : ℕ) (l : ℕ → ℕ) (i s : ℕ)
    → i + rounds < pow2 k * 2
    → (0 < rounds → Enters k i s)
    → ((j : ℕ) → j < i → l j ≡ wide k j)
    → (j : ℕ) → j < i + rounds
    → init_nodes l rounds i s j ≡ wide k j
unfolding init_nodes
init_nodes-lem zero k l i s inside enters done j h = done j (omega arith)
init_nodes-lem (suc rounds) k l i s inside enters done j h =
    let s' = if is_power_of_2 (i + 1) then s / 2 else s in
    init_nodes-lem rounds k (update l i s') (i + 1) s' (omega arith)
      (λ more.
        subst (Enters k (i + 1)) (sym (enters (omega arith))) (Enters-next k i (omega arith)))
      (λ j' h'. elim (same_or_not i j') [
        | inl e ↦
            subst (λ x. update l i s' x ≡ wide k x) e
              (update-same i s' (wide k i) l (enters (omega arith)))
        | inr n ↦ let before = done j' (omega arith) in ground arith
      ])
      j (omega arith)

pub wide-IsBuddy :
    (k : ℕ) (l : ℕ → ℕ) → ((j : ℕ) → j + 1 < pow2 k * 2 → l j ≡ wide k j) → IsBuddy k l
wide-IsBuddy k l all = record {
  bounded = λ i h. omega (arith, all i h);
  inner = λ i h gap.
      let (twice, twice', even) = halves k i h in
      let own = all i (omega arith) in
      let left = all (left_leaf i) (omega arith) in
      let right = all (right_leaf i) (omega arith) in inl (ground arith);
}

root : (k : ℕ) → Enters k 0 (pow2 k * 2)
unfolding is_power_of_2
root k = rw (height-root k) (omega arith)

-- After `buddyInit` every run is free, and the invariant holds.
pub buddy_init-IsBuddy :
    (k : ℕ) (t : BuddyTree)
    → ((buddy_init t (pow2 k)).size ≡ pow2 k)
      × ((j : ℕ) → j + 1 < pow2 k * 2 → (buddy_init t (pow2 k)).longest j ≡ wide k j)
      × IsBuddy k ((buddy_init t (pow2 k)).longest)
unfolding buddy_init
buddy_init-IsBuddy k t =
    let all = λ (j : ℕ) (h : j + 1 < pow2 k * 2).
      init_nodes-lem (pow2 k * 2 - 1) k (t.longest) 0 (pow2 k * 2) (omega (arith, pow2-pos k))
        (λ more. root k) (λ j' h'. absurd (omega arith)) j (omega arith) in
    (refl, all, wide-IsBuddy k _ all)
