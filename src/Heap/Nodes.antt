-- ===== src/Heap/Nodes.antt =====
-- The shape of the tree of kernel/heap.c over `2 ^ k` blocks: parents, heights, and the run of
-- blocks below a node.
use mathlib.Core.Path.{subst}
use moonix.Base.{
  ℕ, zero, suc, ◌+◌, ◌-◌, ◌*◌, ◌≤◌, ◌<◌, ◌≡◌, refl, arith, ap, sym, ◌∙◌, ◌⊎◌, inl, inr, ◌==◌,
  if◌then◌else◌,
}
use moonix.Heap.{left_leaf, right_leaf, parent}
use moonix.Heap.Bits.{pow2}

pub child_cases : (c : ℕ) → 0 < c → (c ≡ left_leaf (parent c)) ⊎ (c ≡ right_leaf (parent c))
child_cases c h = grind arith

-- The height of a node above the leaves, from its distance to the root.
height_go : ℕ → ℕ → ℕ → ℕ
height_go zero k i = k
height_go (suc fuel) k i =
    let above = height_go fuel k (parent i) in if i == 0 then k else above - 1

unfoldable pub height : ℕ → ℕ → ℕ
unfolding height_go
height k i = height_go i k i

height_fuel : (f g k i : ℕ) → i ≤ f → i ≤ g → height_go f k i ≡ height_go g k i
unfolding height_go
height_fuel zero zero k i p q = refl
height_fuel zero (suc g) k i p q = ground arith
height_fuel (suc f) zero k i p q = ground arith
height_fuel (suc f) (suc g) k i p q = ground (arith, height_fuel f g k (parent i))

pub height-root : (k : ℕ) → height k 0 ≡ k
unfolding height
height-root k = refl

pub height-child : (k c : ℕ) → 0 < c → height k c ≡ height k (parent c) - 1
unfolding height
height-child k zero h = absurd (omega arith)
height-child k (suc c) h = ground (arith, height_fuel c (parent (suc c)) k (parent (suc c)))

pub height-left : (k i : ℕ) → height k (left_leaf i) ≡ height k i - 1
height-left k i =
    let e : parent (left_leaf i) ≡ i = omega arith in
    height-child k (left_leaf i) (omega arith) ∙ ap (λ j. height k j - 1) e

pub height-right : (k i : ℕ) → height k (right_leaf i) ≡ height k i - 1
height-right k i =
    let e : parent (right_leaf i) ≡ i = omega arith in
    height-child k (right_leaf i) (omega arith) ∙ ap (λ j. height k j - 1) e

-- The blocks below node `i` lie between 0 and `2 ^ k`.
abbrev pub InRange : ℕ → ℕ → Type 0
InRange k i = (pow2 k ≤ (i + 1) * pow2 (height k i)) × ((i + 2) * pow2 (height k i) ≤ pow2 k * 2)

pub height-inner : (k i : ℕ) → InRange k i → i + 1 < pow2 k → 0 < height k i
unfolding pow2
height-inner k i r inner = at (height k i) refl
  where
    at : (h : ℕ) → height k i ≡ h → 0 < height k i
    at zero e =
        absurd
          (let one : pow2 (height k i) ≡ 1 = ap pow2 e in let low = rw one at (r.0) in omega arith)
    at (suc h) e = omega arith

pub pow2-pred : (h : ℕ) → 0 < h → pow2 h ≡ pow2 (h - 1) * 2
unfolding pow2
pow2-pred zero p = absurd (omega arith)
pow2-pred (suc h) p = ap (λ j. pow2 j * 2) (omega arith)

left_range :
    (n p w : ℕ)
    → n ≤ (p + 1) * (w * 2)
    → (p + 2) * (w * 2) ≤ n * 2
    → (n ≤ (left_leaf p + 1) * w) × ((left_leaf p + 2) * w ≤ n * 2)
left_range n p w lo hi = (grind arith, grind arith)

right_range :
    (n p w : ℕ)
    → n ≤ (p + 1) * (w * 2)
    → (p + 2) * (w * 2) ≤ n * 2
    → (n ≤ (right_leaf p + 1) * w) × ((right_leaf p + 2) * w ≤ n * 2)
right_range n p w lo hi = (grind arith, grind arith)

pub pow2-height_child :
    (k c : ℕ) → 0 < c → 0 < height k (parent c) → pow2 (height k (parent c)) ≡ pow2 (height k c) * 2
pow2-height_child k c p q =
    pow2-pred (height k (parent c)) q ∙ ap (λ j. pow2 j * 2) (sym (height-child k c p))

pub node_range : (fuel k i : ℕ) → i ≤ fuel → i + 1 < pow2 k * 2 → InRange k i
node_range fuel k zero b p = rw height-root (omega arith, omega arith)
node_range zero k (suc i) b p = absurd (omega arith)
node_range (suc fuel) k (suc i) b p =
    let c = suc i in
    let above = node_range fuel k (parent c) (omega arith) (omega arith) in
    let tall = height-inner k (parent c) above (omega arith) in
    let wide = pow2-height_child k c (omega arith) tall in
    let w = pow2 (height k c) in
    let lo = rw wide at (above.0) in
    let hi = rw wide at (above.1) in
    elim (child_cases c (omega arith)) [
      | inl e ↦
          subst (λ j. (pow2 k ≤ (j + 1) * w) × ((j + 2) * w ≤ pow2 k * 2)) (sym e)
            (left_range (pow2 k) (parent c) w lo hi)
      | inr e ↦
          subst (λ j. (pow2 k ≤ (j + 1) * w) × ((j + 2) * w ≤ pow2 k * 2)) (sym e)
            (right_range (pow2 k) (parent c) w lo hi)
    ]

-- The `d`-th node above `i`; the root is above itself.
unfoldable pub up : ℕ → ℕ → ℕ
up zero i = i
up (suc d) i = up d (parent i)

pub up-le : (d i : ℕ) → up d i ≤ i
unfolding up
up-le zero i = omega arith
up-le (suc d) i = omega (arith, up-le d (parent i))

pub up-parent : (d i : ℕ) → up (suc d) i ≡ parent (up d i)
unfolding up
up-parent zero i = refl
up-parent (suc d) i = up-parent d (parent i)
