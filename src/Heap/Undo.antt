-- ===== src/Heap/Undo.antt =====
-- The climb of `buddyFree` (kernel/heap.c) undoes that of `buddyAlloc`: once the run is free again,
-- each node above it says what it said before.
use Prim.Native.Nat.{max}
use mathlib.Core.Path.{subst}
use moonix.Base.{
  ℕ, zero, suc, ◌+◌, ◌*◌, ◌≤◌, ◌<◌, ◌≡◌, ◌≢◌, refl, arith, ap, sym, ◌∙◌, inl, inr, ◌==◌, update,
  update-at, update-other, same_or_not, false,
}
use moonix.Heap.{left_leaf, right_leaf, parent, climb_max, climb_merge}
use moonix.Heap.Bits.{pow2}
use moonix.Heap.Invariant.{wide, merged, IsBuddy, tall}
use moonix.Heap.Nodes.{pow2-height_child, up, up-le}

-- `i` is not above `c`.
abbrev pub Off : ℕ → ℕ → Type 0
Off c i = (d : ℕ) → up (suc d) c ≢ i

pub up_zero : (d : ℕ) → up d 0 ≡ 0
unfolding up
up_zero d = let b = up-le d 0 in omega arith

pub Off-up : (p i : ℕ) → p ≢ i → Off p i → (d : ℕ) → up d p ≢ i
unfolding up
Off-up p i other o zero = other
Off-up p i other o (suc d) = o d

pub climb_max-Off : (fuel : ℕ) (l : ℕ → ℕ) (c i : ℕ) → Off c i → climb_max fuel l c i ≡ l i
unfolding climb_max up
climb_max-Off zero l c i h = refl
climb_max-Off (suc fuel) l c i h =
    let p = parent c in
    let v = max (l (left_leaf p)) (l (right_leaf p)) in
    let other : p ≢ i = h 0 in
    let rest = climb_max-Off fuel (update l p v) p i (λ d. h (suc d)) in ground arith

-- `m` says what `l` says, except above `c`.
abbrev pub Agrees : ℕ → (ℕ → ℕ) → (ℕ → ℕ) → ℕ → Type 0
Agrees k l m c = (m c ≡ l c) × ((i : ℕ) → i + 1 < pow2 k * 2 → Off c i → m i ≡ l i)

module _ (k : ℕ) (l : ℕ → ℕ) (holds : IsBuddy k l) where
  -- A node above a free one sums up its children.
  pub sums_up :
      (p : ℕ)
      → p + 1 < pow2 k
      → l p ≢ 0
      → l p ≡ merged (wide k p) (l (left_leaf p)) (l (right_leaf p))
  sums_up p h n = elim (holds.inner p h (inl refl)) [ inl e ↦ e | inr (z, _, _) ↦ absurd (n z) ]

  Agrees-up :
      (m : ℕ → ℕ) (c : ℕ)
      → c + 1 < pow2 k * 2
      → 0 < c
      → l (parent c) ≢ 0
      → Agrees k l m c
      → let p = parent c in
        Agrees k l (update m p (merged (wide k p) (m (left_leaf p)) (m (right_leaf p)))) p
  unfolding up
  Agrees-up m c inside pos n (own, rest) =
      let p = parent c in
      let v = merged (wide k p) (m (left_leaf p)) (m (right_leaf p)) in
      let off : (s : ℕ) → p < s → Off c s = λ s h d z. let b = up-le d p in absurd (omega arith) in
      let left : m (left_leaf p) ≡ l (left_leaf p) =
        rest (left_leaf p) (omega arith) (off (left_leaf p) (omega arith)) in
      let right : m (right_leaf p) ≡ l (right_leaf p) =
        rest (right_leaf p) (omega arith) (off (right_leaf p) (omega arith)) in
      let value : v ≡ l p = rw (left, right) (sym (sums_up p (omega arith) n)) in
      (
        update-at m p v ∙ value,
        λ i h o. elim (same_or_not p i) [
          | inl e ↦ subst (λ j. update m p v j ≡ l j) e (update-at m p v ∙ value)
          | inr other ↦ update-other m p v i other ∙ rest i h (λ d z. Off-up p i other o d z)
        ],
      )

  Agrees-at_root : (m : ℕ → ℕ) → Agrees k l m 0 → (i : ℕ) → i + 1 < pow2 k * 2 → m i ≡ l i
  Agrees-at_root m (own, rest) zero h = own
  Agrees-at_root m (own, rest) (suc i) h =
      rest (suc i) h (λ d z. absurd (omega (arith, up_zero (suc d))))

  pub climb_merge-restores :
      (fuel : ℕ) (m : ℕ → ℕ) (c s : ℕ)
      → c ≤ fuel
      → c + 1 < pow2 k * 2
      → s ≡ wide k c
      → ((d : ℕ) → l (up (suc d) c) ≢ 0)
      → Agrees k l m c
      → (i : ℕ) → i + 1 < pow2 k * 2
      → climb_merge fuel m c s i ≡ l i
  unfolding climb_merge up
  climb_merge-restores zero m zero s b inside w path same i h = Agrees-at_root m same i h
  climb_merge-restores zero m (suc c) s b inside w path same i h = absurd (omega arith)
  climb_merge-restores (suc fuel) m zero s b inside w path same i h = Agrees-at_root m same i h
  climb_merge-restores (suc fuel) m (suc c) s b inside w path same i h =
      let p = parent (suc c) in
      let no : suc c == 0 ≡ false = ground arith in
      let sized : s * 2 ≡ wide k p =
        ap (λ z. z * 2) w
        ∙ sym (pow2-height_child k (suc c) (omega arith) (tall k p (omega arith))) in
      let v = merged (s * 2) (m (left_leaf p)) (m (right_leaf p)) in
      let up_one = Agrees-up m (suc c) inside (omega arith) (path 0) same in
      let up_one' =
        subst (λ z. Agrees k l (update m p (merged z (m (left_leaf p)) (m (right_leaf p)))) p)
          (sym sized) up_one in
      let rest =
        climb_merge-restores fuel (update m p v) p (s * 2) (omega arith) (omega arith) sized
          (λ d. path (suc d)) up_one' i h in
      rw no rest
