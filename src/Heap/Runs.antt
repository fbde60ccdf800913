-- ===== src/Heap/Runs.antt =====
-- Runs of the buddy tree of kernel/heap.c: which nodes lie above and below one, what a free one says of
-- those below, and that `buddyAlloc` writes to those above only.
use Prim.Native.Nat.{max}
use mathlib.Core.Path.{subst}
use moonix.Base.{
  ℕ, zero, suc, ◌+◌, ◌*◌, ◌<◌, ◌≡◌, refl, sym, ◌∙◌, arith, ◌⊎◌, inl, inr, true, false, same_or_not,
  update, update-other, ◌==◌,
}
use moonix.Heap.{left_leaf, right_leaf, parent, climb_max}
use moonix.Heap.Bits.{pow2, pow2-pos}
use moonix.Heap.Nodes.{height}
use moonix.Heap.Invariant.{Above, next, further, wide, IsBuddy, halves}

pub child-Above :
    (i c a : ℕ) → (c ≡ left_leaf i) ⊎ (c ≡ right_leaf i) → Above a c → (a ≡ i) ⊎ Above a i
child-Above i c a child (next pos e) = inl (omega arith)
child-Above i c a child (further {b} pos e above) =
    let back : b ≡ i = omega arith in inr (subst (λ x. Above a x) back above)

pub root-Above : (a : ℕ) → ¬ (Above a 0)
root-Above a (next pos e) = absurd (omega arith)
root-Above a (further pos e above) = absurd (omega arith)

-- Below a node that is free to its whole width so are all.
full_half :
    (k : ℕ) (l : ℕ → ℕ) (j i : ℕ)
    → IsBuddy k l
    → i + 1 < pow2 k * 2
    → 0 < i
    → j ≡ parent i
    → l j ≡ wide k j
    → l i ≡ wide k i
full_half k l j i holds inside some_parent e free =
    let inner : j + 1 < pow2 k = omega arith in
    let (whole, whole', even) = halves k j inner in
    let left = holds.bounded (left_leaf j) (omega arith) in
    let right = holds.bounded (right_leaf j) (omega arith) in
    let pos = pow2-pos (height k j) in
    let side : (i ≡ left_leaf j) ⊎ (i ≡ right_leaf j) = omega arith in
    let both : (l (left_leaf j) ≡ wide k (left_leaf j))
        × (l (right_leaf j) ≡ wide k (right_leaf j)) =
      elim (holds.inner j inner (inl refl)) [
        | inl sum ↦ ground arith
        | inr e' ↦ absurd (omega (arith, e'.0))
      ] in
    elim side [ inl at ↦ rw at (both.0) | inr at ↦ rw at (both.1) ]

pub full_below :
    (k : ℕ) (l : ℕ → ℕ) (j i : ℕ)
    → IsBuddy k l
    → l j ≡ wide k j
    → i + 1 < pow2 k * 2
    → Above j i
    → l i ≡ wide k i
full_below k l j i holds free inside (next pos e) = full_half k l j i holds inside pos e free
full_below k l j i holds free inside (further {b} pos e up) =
    full_half k l b i holds inside pos e (full_below k l j b holds free (omega arith) up)

-- The climb writes to the nodes above only.
pub climb_max-other : (fuel : ℕ) (l : ℕ → ℕ) (c i : ℕ) → ¬ (Above i c) → climb_max fuel l c i ≡ l i
unfolding climb_max
climb_max-other zero l c i apart = refl
climb_max-other (suc fuel) l c i apart =
    let p = parent c in
    let v = max (l (left_leaf p)) (l (right_leaf p)) in
    elim (same_or_not c 0) [
      | inl e ↦ let top : c == 0 ≡ true = ground arith in rw top refl
      | inr n ↦
          let inner : c == 0 ≡ false = ground arith in
          rw inner (
            climb_max-other fuel (update l p v) p i (λ up. apart (further (omega arith) refl up))
            ∙ update-other l p v i (λ e. apart (next (omega arith) (sym e))))
    ]
