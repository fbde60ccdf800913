-- ===== src/Heap/Invariant.antt =====
-- The invariant of the buddy tree of kernel/heap.c, and which blocks it has handed out.
use Prim.Native.Nat.{max}
use moonix.Base.{ℕ, ◌+◌, ◌*◌, ◌≤◌, ◌<◌, ◌≡◌, ◌≢◌, arith, ap, sym, ◌∙◌, ◌⊎◌, ◌==◌, if◌then◌else◌}
use moonix.Heap.{left_leaf, right_leaf, parent}
use moonix.Heap.Bits.{pow2}
use moonix.Heap.Nodes.{height, height-left, height-right, height-inner, node_range, pow2-pred}

-- The length of the run below a node.
abbrev pub wide : ℕ → ℕ → ℕ
wide k i = pow2 (height k i)

-- What a node says of its children when both halves may be free.
abbrev pub merged : ℕ → ℕ → ℕ → ℕ
merged size l r = if l + r == size then size else max l r

-- An inner node sums up its children, or it has been handed out as a whole and its children keep
-- the values of a free run.
abbrev pub IsNode : ℕ → (ℕ → ℕ) → ℕ → Type 0
IsNode k l i =
    (l i ≡ merged (wide k i) (l (left_leaf i)) (l (right_leaf i)))
    ⊎ ((l i ≡ 0)
        × (l (left_leaf i) ≡ wide k (left_leaf i))
        × (l (right_leaf i) ≡ wide k (right_leaf i)))

-- The invariant over `2 ^ k` blocks, where the nodes above `c` may wait to be brought up to date,
-- the next one first.
pub record IsBuddyBelow (k : ℕ) (l : ℕ → ℕ) (c : ℕ) : Type 0 where
  pub bounded : (i : ℕ) → i + 1 < pow2 k * 2 → l i ≤ wide k i
  pub inner : (i : ℕ) → i + 1 < pow2 k → (c ≡ 0) ⊎ (i ≢ parent c) → IsNode k l i

abbrev pub IsBuddy : ℕ → (ℕ → ℕ) → Type 0
IsBuddy k l = IsBuddyBelow k l 0

-- Node `i` has been handed out as a whole: it is 0, and it is a leaf or its left child is not 0.
abbrev pub Handed : ℕ → (ℕ → ℕ) → ℕ → Type 0
Handed k l i = (l i ≡ 0) × (i + 1 < pow2 k → l (left_leaf i) ≢ 0)

-- Node `a` lies above node `j`.
pub data Above (a : ℕ) : ℕ → Type 0 where
  next : {j : ℕ} → 0 < j → a ≡ parent j → Above a j
  further : {b j : ℕ} → 0 < j → b ≡ parent j → Above a b → Above a j

-- Node `j` goes from free to handed out: no node above it had been handed out, it and all nodes below
-- it were free to their whole width, and besides it and the nodes above no node changes.
pub record Taken (k : ℕ) (l l' : ℕ → ℕ) (j : ℕ) : Type 0 where
  pub inside : j + 1 < pow2 k * 2
  pub free : l j ≡ wide k j
  pub clear_below : (i : ℕ) → i + 1 < pow2 k * 2 → Above j i → l i ≡ wide k i
  pub clear_above : (a : ℕ) → Above a j → wide k j ≤ l a
  pub held : l' j ≡ 0
  pub others : (i : ℕ) → i ≢ j → ¬ (Above i j) → l' i ≡ l i

module _ (k i : ℕ) (inner : i + 1 < pow2 k) where
  pub tall : 0 < height k i
  tall = height-inner k i (node_range i k i (omega arith) (omega arith)) inner

  -- The two halves of a run.
  pub halves :
      (wide k i ≡ wide k (left_leaf i) * 2)
      × (wide k i ≡ wide k (right_leaf i) * 2)
      × (wide k (left_leaf i) ≡ wide k (right_leaf i))
  halves =
      let l = pow2-pred (height k i) tall ∙ ap (λ h. pow2 h * 2) (sym (height-left k i)) in
      let r = pow2-pred (height k i) tall ∙ ap (λ h. pow2 h * 2) (sym (height-right k i)) in
      (l, r, omega arith)
