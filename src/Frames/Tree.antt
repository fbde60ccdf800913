-- ===== src/Frames/Tree.antt =====
-- The segment tree of kernel/memory.c: its invariant, and the two loops that walk it.
use Prim.Native.Nat.{bit_and}
use moonix.Base.{
  ℕ, zero, suc, ◌+◌, ◌*◌, ◌/◌, ◌≤◌, ◌<◌, ◌≡◌, ◌≢◌, refl, arith, ltb, ◌==◌, ◌∙◌, sym, Bool-cases,
  inl, inr,
}
use moonix.Frames.{join, descend, climb}

-- Every node below `2 * fs` is 0 or 1, and every inner one but `gap` says what its children say.
pub record IsTree (node : ℕ → ℕ) (fs gap : ℕ) : Type 0 where
  pub bits : (i : ℕ) → i < fs * 2 → node i ≤ 1
  pub edges :
      (i : ℕ) → 0 < i → i < fs → i ≢ gap → node i ≡ bit_and (node (i * 2)) (node (i * 2 + 1))

pub bit_and_bits :
    (a b : ℕ)
    → a ≤ 1
    → b ≤ 1
    → (bit_and a b ≤ 1) × (bit_and a b ≡ 0 → a ≢ 0 → b ≡ 0) × (bit_and a b ≡ 1 → (a ≡ 1) × (b ≡ 1))
bit_and_bits zero zero p q = ground arith
bit_and_bits zero (suc zero) p q = ground arith
bit_and_bits (suc zero) zero p q = ground arith
bit_and_bits (suc zero) (suc zero) p q = ground arith
bit_and_bits a (suc (suc b)) p q = absurd (omega arith)
bit_and_bits (suc (suc a)) b p q = absurd (omega arith)

-- The way down from a node with a free page ends at a free page.
pub descend-Leaf :
    (fuel : ℕ) (node : ℕ → ℕ) (fs p : ℕ)
    → IsTree node fs 0
    → 0 < p
    → p < fs * 2
    → node p ≡ 0
    → fs ≤ p + fuel
    → (fs ≤ descend fuel node fs p)
      × (descend fuel node fs p < fs * 2)
      × (node (descend fuel node fs p) ≡ 0)
unfolding descend
descend-Leaf zero node fs p t pos bound free enough = (omega arith, bound, free)
descend-Leaf (suc fuel) node fs p t pos bound free enough = elim (Bool-cases (ltb p fs)) [
  | inl inner ↦
      let lo : p < fs = ground arith in
      let edge = t.edges p pos lo (omega arith) in
      let joined =
        bit_and_bits (node (p * 2)) (node (p * 2 + 1)) (t.bits (p * 2) (omega arith))
          (t.bits (p * 2 + 1) (omega arith)) in
      elim (Bool-cases (node (p * 2) == 0)) [
        | inl left ↦
            rw (inner, left)
              (descend-Leaf fuel node fs (p * 2) t (omega arith) (omega arith) (ground arith)
                (omega arith))
        | inr right ↦
            rw (inner, right)
              (descend-Leaf fuel node fs (p * 2 + 1) t (omega arith) (omega arith)
                (joined.1 (sym edge ∙ free) (ground arith)) (omega arith))
      ]
  | inr leaf ↦ rw leaf (ground arith, bound, free)
]

-- Bringing the gap up to date moves it to its parent.
join-IsTree :
    (node : ℕ → ℕ) (fs p : ℕ) → IsTree node fs p → 0 < p → p < fs → IsTree (join node p) fs (p / 2)
unfolding join
join-IsTree node fs p t pos inner =
    let joined =
      bit_and_bits (node (p * 2)) (node (p * 2 + 1)) (t.bits (p * 2) (omega arith))
        (t.bits (p * 2 + 1) (omega arith)) in
    record { bits = λ i b. ground (arith, t.bits i); edges = λ i b c ne. ground (arith, t.edges i) }

pub join_at : (node : ℕ → ℕ) (p i : ℕ) → p < i → join node p i ≡ node i
unfolding join
join_at node p i h = ground arith

-- The way up closes the gap and leaves the pages alone.
pub climb-IsTree :
    (fuel : ℕ) (node : ℕ → ℕ) (fs p : ℕ)
    → IsTree node fs p
    → p < fs
    → p ≤ fuel
    → IsTree (climb fuel node p) fs 0 × ((i : ℕ) → fs ≤ i → climb fuel node p i ≡ node i)
unfolding climb
climb-IsTree zero node fs p t inner enough = let e : p ≡ 0 = omega arith in (rw e at t, λ i b. refl)
climb-IsTree (suc fuel) node fs p t inner enough = elim (Bool-cases (ltb 0 p)) [
  | inl more ↦
      let (tree, kept) =
        climb-IsTree fuel (join node p) fs (p / 2) (join-IsTree node fs p t (ground arith) inner)
          (omega arith) (ground arith) in
      rw more (tree, λ i b. kept i b ∙ join_at node p i (omega arith))
  | inr root ↦ let e : p ≡ 0 = ground arith in rw root (rw e at t, λ i b. refl)
]
