-- ===== src/Heap/Alloc.antt =====
-- `buddyAlloc` (kernel/heap.c): where the search from the root ends, and what the tree is after.
use Prim.Native.Nat.{max}
use mathlib.Core.Path.{subst}
use moonix.Base.{
  ℕ, zero, suc, ◌+◌, ◌-◌, ◌*◌, ◌/◌, ◌≤◌, ◌<◌, ◌≡◌, ◌≢◌, refl, arith, ap, sym, ◌∙◌, ◌⊎◌, inl, inr,
  same_or_not, ◌==◌, update, update-other, ltb, ltb→lt, Bool-cases, ◌^◌, Option, none, some, true,
  false,
}
use moonix.Heap.{
  BuddyTree, left_leaf, right_leaf, parent, round_up, buddy_alloc, choose, search_down, climb_max,
}
use moonix.Heap.Bits.{pow2, pow2-pos, round_up-pow2}
use moonix.Heap.Nodes.{height, height-left, height-right, height-root, node_range}
use moonix.Heap.Climb.{set-IsBuddyBelow, climb_max-IsBuddy}
use moonix.Heap.Runs.{child-Above, root-Above, full_below, climb_max-other}
use moonix.Heap.Invariant.{Above, Taken, wide, IsNode, IsBuddyBelow, IsBuddy, halves}

-- Powers of two are at least twice apart.
pub pow2_gap : (a b : ℕ) → pow2 a < pow2 b → pow2 a * 2 ≤ pow2 b
unfolding pow2
pow2_gap zero zero h = absurd (omega arith)
pow2_gap zero (suc b) h = omega (arith, pow2-pos b)
pow2_gap (suc a) zero h = absurd (omega (arith, pow2-pos a))
pow2_gap (suc a) (suc b) h = omega (arith, pow2_gap a b (omega arith))

two_wide : (i w n : ℕ) → 2 ≤ w → (i + 2) * w ≤ n * 2 → i + 1 < n
two_wide i w n wide fits = grind arith

-- A node that is too large to hand out has a child that is large enough.
module _ (k h : ℕ) (l : ℕ → ℕ) (holds : IsBuddy k l) (i : ℕ) (inside : i + 1 < pow2 k * 2)
    (enough : pow2 h ≤ l i) (large : pow2 h ≢ wide k i) where
  pub inner_node : i + 1 < pow2 k
  inner_node =
      let gap = pow2_gap h (height k i) (omega (arith, holds.bounded i inside)) in
      let range = node_range i k i (omega arith) inside in
      two_wide i (wide k i) (pow2 k) (omega (arith, pow2-pos h)) (range.1)

  pub chosen_enough : pow2 h ≤ l (choose l (pow2 h) i)
  unfolding choose
  chosen_enough =
      let bounded = holds.bounded i inside in
      let gap = pow2_gap h (height k i) (omega arith) in
      let (whole, both, even) = halves k i inner_node in
      let pos = pow2-pos h in
      elim (holds.inner i inner_node (inl refl)) [
        | inl e ↦ ground arith
        | inr e ↦ absurd (omega arith)
      ]

  pub chosen_child : (choose l (pow2 h) i ≡ left_leaf i) ⊎ (choose l (pow2 h) i ≡ right_leaf i)
  unfolding choose
  chosen_child = ground arith

  pub chosen_fits :
      let j = choose l (pow2 h) i in
      (wide k i / 2 ≡ wide k j) × (height k j ≡ height k i - 1) × (j + 1 < pow2 k * 2)
  chosen_fits =
      let (whole, both, even) = halves k i inner_node in
      let inner = inner_node in
      let lower = height-left k i in
      let lower' = height-right k i in
      elim chosen_child [
        | inl e ↦
            subst
              (λ j.
                (wide k i / 2 ≡ wide k j) × (height k j ≡ height k i - 1) × (j + 1 < pow2 k * 2))
              (sym e) (omega arith, lower, omega arith)
        | inr e ↦
            subst
              (λ j.
                (wide k i / 2 ≡ wide k j) × (height k j ≡ height k i - 1) × (j + 1 < pow2 k * 2))
              (sym e) (omega arith, lower', omega arith)
      ]

-- Where the search is to end, with the size there.
abbrev pub Ends : ℕ → ℕ → (ℕ → ℕ) → ℕ × ℕ → Type 0
Ends k h l (j, s) =
    (j + 1 < pow2 k * 2)
    × (wide k j ≡ pow2 h)
    × (l j ≡ pow2 h)
    × (s ≡ pow2 h)
    × ((a : ℕ) → Above a j → pow2 h ≤ l a)

-- The search ends at a free node of the size that it looks for.
pub search_down-lem :
    (fuel k h : ℕ) (l : ℕ → ℕ)
    → IsBuddy k l
    → (i : ℕ) → height k i ≤ fuel
    → i + 1 < pow2 k * 2
    → pow2 h ≤ l i
    → ((a : ℕ) → Above a i → pow2 h ≤ l a)
    → Ends k h l (search_down fuel l (pow2 h) i (wide k i))
unfolding search_down pow2
search_down-lem zero k h l holds i f inside enough above =
    let flat : wide k i ≡ 1 = let bottom : height k i ≡ 0 = omega arith in ap pow2 bottom in
    let bounded = holds.bounded i inside in
    let pos = pow2-pos h in (inside, omega arith, omega arith, omega arith, above)
search_down-lem (suc fuel) k h l holds i f inside enough above =
    let bounded = holds.bounded i inside in
    elim (same_or_not (wide k i) (pow2 h))
      as (λ x. Ends k h l (search_down (suc fuel) l (pow2 h) i (wide k i))) [
        | inl e ↦
            let yes : wide k i == pow2 h ≡ true = ground arith in
            rw yes (inside, e, omega arith, e, above)
        | inr n ↦
            let no : wide k i == pow2 h ≡ false = ground arith in
            let other = λ (z : pow2 h ≡ wide k i). n (sym z) in
            let c = choose l (pow2 h) i in
            let fits = chosen_fits k h l holds i inside enough other in
            let rest =
              search_down-lem fuel k h l holds c (omega (arith, fits)) (fits.2)
                (chosen_enough k h l holds i inside enough other)
                (λ a up.
                  elim (child-Above i c a (chosen_child k h l holds i inside enough other) up) [
                    | inl e ↦ subst (λ x. pow2 h ≤ l x) (sym e) enough
                    | inr higher ↦ above a higher
                  ]) in
            rw (no, fits.0) rest
      ]

-- The climb writes above the node that it starts from.
pub climb_max-below : (fuel : ℕ) (l : ℕ → ℕ) (c i : ℕ) → c ≤ i → climb_max fuel l c i ≡ l i
unfolding climb_max
climb_max-below zero l c i h = refl
climb_max-below (suc fuel) l c i h =
    let p = parent c in
    let v = max (l (left_leaf p)) (l (right_leaf p)) in
    ground (arith, climb_max-below fuel (update l p v) p i (omega arith))

-- A free node that is handed out.
take-IsBuddyBelow :
    (k : ℕ) (l : ℕ → ℕ) (j : ℕ)
    → IsBuddy k l
    → j + 1 < pow2 k * 2
    → l j ≡ wide k j
    → IsBuddyBelow k (update l j 0) j
take-IsBuddyBelow k l j holds inside free = set-IsBuddyBelow k l j 0 holds (omega arith) own
  where
    own : j + 1 < pow2 k → IsNode k (update l j 0) j
    own h =
        let (whole, whole', even) = halves k j h in
        let left = holds.bounded (left_leaf j) (omega arith) in
        let right = holds.bounded (right_leaf j) (omega arith) in
        let pos = pow2-pos (height k j) in
        elim (holds.inner j h (inl refl)) [
          | inl e ↦ inr (ground arith)
          | inr e ↦ absurd (omega (arith, e.0))
        ]

pub below_pow2 : (k : ℕ) → k < pow2 k
unfolding pow2
below_pow2 zero = omega arith
below_pow2 (suc k) = omega (arith, below_pow2 k)

pub round_up-lem : (blocks : ℕ) → blocks ≤ 2 ^ 31 → (h : ℕ) × (round_up blocks ≡ pow2 h)
unfolding round_up pow2
round_up-lem zero b = (0, refl)
round_up-lem (suc blocks) b =
    let (h, e, low, high) = round_up-pow2 (suc blocks) (omega arith) b in (h, e)

-- What `buddyAlloc` promises. It fails, and changes nothing, only if no run is long enough. Else
-- it hands out a run of the length that the request is rounded up to, aligned and inside the
-- heap, of which nothing has been handed out before, neither with a longer run around it nor
-- with a part of it, and no node beside it or below it changes.
pub data Served (k blocks : ℕ) (t : BuddyTree) : Option ℕ × BuddyTree → Type 0 where
  full : t.longest 0 < round_up blocks → Served k blocks t (none, t)
  taken :
      {offset : ℕ} {t' : BuddyTree}
      → (j : ℕ) → wide k j ≡ round_up blocks
      → Taken k (t.longest) (t'.longest) j
      → offset + pow2 k ≡ (j + 1) * round_up blocks
      → offset + round_up blocks ≤ pow2 k
      → t'.size ≡ pow2 k
      → IsBuddy k (t'.longest)
      → Served k blocks t (some offset, t')

run_ends : (n i w : ℕ) → n ≤ (i + 1) * w → (i + 2) * w ≤ n * 2 → (i + 1) * w - n + w ≤ n
run_ends n i w low high = grind arith

module _ (k : ℕ) (t : BuddyTree) (blocks : ℕ) (sized : t.size ≡ pow2 k)
    (holds : IsBuddy k (t.longest)) (bounded : blocks ≤ 2 ^ 30) where
  abbrev FoundAt : ℕ × ℕ → Type 0
  FoundAt (j, s) =
      (j + 1 < pow2 k * 2)
      × (wide k j ≡ round_up blocks)
      × (t.longest j ≡ round_up blocks)
      × (s ≡ round_up blocks)
      × ((a : ℕ) → Above a j → round_up blocks ≤ t.longest a)

  pub found :
      ltb (t.longest 0) (round_up blocks) ≡ false
      → FoundAt (search_down (t.size) (t.longest) (round_up blocks) 0 (t.size))
  found e =
      let (h, p) = round_up-lem blocks (omega arith) in
      let root = height-root k in
      let pos = pow2-pos k in
      let enough : round_up blocks ≤ t.longest 0 = ground arith in
      rw (p, sized)
        (subst (λ n. Ends k h (t.longest) (search_down (pow2 k) (t.longest) (pow2 h) 0 n))
          (ap pow2 root)
          (search_down-lem (pow2 k) k h (t.longest) holds 0 (omega (arith, below_pow2 k))
            (omega arith) (omega arith) (λ a up. absurd (root-Above a up))))

  -- The search and the climb after it, at the node where the search ends.
  taken_at :
      (j s : ℕ)
      → j + 1 < pow2 k * 2
      → wide k j ≡ round_up blocks
      → t.longest j ≡ round_up blocks
      → s ≡ round_up blocks
      → ((a : ℕ) → Above a j → round_up blocks ≤ t.longest a)
      → Served k blocks t (
        some ((j + 1) * s - t.size),
        record t { longest = climb_max j (update (t.longest) j 0) j },
      )
  taken_at j s inside w free e above =
      let (low, high) = node_range j k j (omega arith) inside in
      let pos = pow2-pos (height k j) in
      let low' : pow2 k ≤ (j + 1) * round_up blocks = rw w at low in
      let high' : (j + 2) * round_up blocks ≤ pow2 k * 2 = rw w at high in
      let ends = run_ends (pow2 k) j (round_up blocks) low' high' in
      taken j w
        (record {
          inside = inside;
          free = free ∙ sym w;
          clear_below =
              λ i in_tree below. full_below k (t.longest) j i holds (free ∙ sym w) in_tree below;
          clear_above = λ a up. rw w (above a up);
          held = climb_max-below j (update (t.longest) j 0) j j (omega arith) ∙ ground arith;
          others = λ i other not_above.
              climb_max-other j (update (t.longest) j 0) j i not_above
              ∙ update-other (t.longest) j 0 i (λ z. other (sym z));
        })
        (rw (e, sized) (omega arith)) (rw (e, sized) ends) sized
        (climb_max-IsBuddy j k (update (t.longest) j 0) j (omega arith) inside
          (take-IsBuddyBelow k (t.longest) j holds inside (free ∙ sym w)) (ground arith))

  -- `buddyAlloc` of up to 2 ^ 30 blocks on a valid tree fails, and changes nothing, only if no run is
  -- long enough. Else it returns the first block of an aligned run of the rounded length in the
  -- heap, of which nothing was handed out, neither with a longer run around it nor in part; its
  -- node is handed out now, no node beside it or below it changes, and the tree stays valid.
  pub buddy_alloc-Served : Served k blocks t (buddy_alloc t blocks)
  unfolding buddy_alloc
  buddy_alloc-Served =
      elim (Bool-cases (ltb (t.longest 0) (round_up blocks)))
        as (λ x. Served k blocks t (buddy_alloc t blocks)) [
          | inl e ↦ rw e (full (ltb→lt _ _ e))
          | inr e ↦
              let (inside, w, free, s, above) = found e in rw e (taken_at _ _ inside w free s above)
        ]
