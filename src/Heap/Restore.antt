-- ===== src/Heap/Restore.antt =====
-- `buddyFree` of what `buddyAlloc` (kernel/heap.c) has handed out restores the tree.
use mathlib.Core.Path.{subst}
use moonix.Base.{
  ℕ, zero, suc, ◌+◌, ◌-◌, ◌*◌, ◌^◌, ◌≤◌, ◌<◌, ◌≡◌, ◌≢◌, refl, arith, ap, sym, ◌∙◌, inl, inr, ◌==◌,
  update, update-at, update-other, same_or_not, ltb, true, false, Bool-cases, Option, some, none,
}
use moonix.Heap.{
  BuddyTree, parent, choose, search_down, climb_max, find_up, climb_merge, free_at, round_up,
  buddy_alloc, buddy_free,
}
use moonix.Heap.Alloc.{
  chosen_enough, chosen_child, chosen_fits, below_pow2, round_up-lem, climb_max-below, found,
}
use moonix.Heap.Bits.{pow2, pow2-pos}
use moonix.Heap.Invariant.{wide, IsBuddy}
use moonix.Heap.Lands.{find_up-lands}
use moonix.Heap.Undo.{up_zero, climb_max-Off, climb_merge-restores}
use moonix.Heap.Nodes.{height, height-root, node_range, up}

child_path :
    (l : ℕ → ℕ) (c i : ℕ)
    → parent c ≡ i
    → ((d : ℕ) → l (up d i) ≢ 0)
    → l c ≢ 0
    → (d : ℕ) → l (up d c) ≢ 0
unfolding up
child_path l c i e path own zero = own
child_path l c i e path own (suc d) = subst (λ p. l (up d p) ≢ 0) (sym e) (path d)

-- The search of `buddyAlloc` only passes nodes that are not 0.
search_down-path :
    (fuel k h : ℕ) (l : ℕ → ℕ)
    → IsBuddy k l
    → (i : ℕ) → i + 1 < pow2 k * 2
    → pow2 h ≤ l i
    → ((d : ℕ) → l (up d i) ≢ 0)
    → (d : ℕ) → l (up d (search_down fuel l (pow2 h) i (wide k i)).0) ≢ 0
unfolding search_down
search_down-path zero k h l holds i inside enough path = path
search_down-path (suc fuel) k h l holds i inside enough path =
    elim (same_or_not (wide k i) (pow2 h))
      as (λ _. (d : ℕ) → l (up d (search_down (suc fuel) l (pow2 h) i (wide k i)).0) ≢ 0) [
        | inl e ↦ let found : wide k i == pow2 h ≡ true = ground arith in rw found path
        | inr n ↦
            let no : wide k i == pow2 h ≡ false = ground arith in
            let large : pow2 h ≢ wide k i = λ z. n (sym z) in
            let fits = chosen_fits k h l holds i inside enough large in
            let more = chosen_enough k h l holds i inside enough large in
            let c = choose l (pow2 h) i in
            let from : parent c ≡ i = elim (chosen_child k h l holds i inside enough large) [
              | inl e ↦ ap parent e ∙ omega arith
              | inr e ↦ ap parent e ∙ omega arith
            ] in
            rw (no, fits.0)
              (search_down-path fuel k h l holds c (fits.2) more
                (child_path l c i from path (omega (arith, pow2-pos h))))
      ]

-- What `buddyFree` makes of the answer of `buddyAlloc`: with a block, the tree says at every node
-- what `t` says.
pub data Restores (k : ℕ) (t : BuddyTree) : Option ℕ × BuddyTree → Type 0 where
  nothing : {t' : BuddyTree} → Restores k t (none, t')
  restored :
      {offset : ℕ} {t' : BuddyTree}
      → ((i : ℕ) → i + 1 < pow2 k * 2 → (buddy_free t' offset).longest i ≡ t.longest i)
      → Restores k t (some offset, t')

module _ (k : ℕ) (t : BuddyTree) (blocks : ℕ) (sized : t.size ≡ pow2 k)
    (holds : IsBuddy k (t.longest)) (bounded : blocks ≤ 2 ^ 30) where
  path_found :
      ltb (t.longest 0) (round_up blocks) ≡ false
      → (d : ℕ)
      → t.longest (up d (search_down (t.size) (t.longest) (round_up blocks) 0 (t.size)).0) ≢ 0
  path_found e =
      let (h, p) = round_up-lem blocks (omega arith) in
      let pos = pow2-pos h in
      let inside = pow2-pos k in
      let enough : pow2 h ≤ t.longest 0 = ground arith in
      let root =
        λ (d : ℕ). subst (λ i. t.longest i ≢ 0) (sym (up_zero d)) (λ z. absurd (omega arith)) in
      rw (p, sized)
        (subst
          (λ n. (d : ℕ) → t.longest (up d (search_down (pow2 k) (t.longest) (pow2 h) 0 n).0) ≢ 0)
          (ap pow2 (height-root k))
          (search_down-path (pow2 k) k h (t.longest) holds 0 (omega arith) enough root))

  -- Giving back the run of node `j`, which was free.
  module _ (j : ℕ) (inside : j + 1 < pow2 k * 2) (free : t.longest j ≡ wide k j)
      (path : (d : ℕ) → t.longest (up d j) ≢ 0) where
    abbrev after : ℕ → ℕ
    after = climb_max j (update (t.longest) j 0) j

    after_at : after j ≡ 0
    after_at =
        climb_max-below j (update (t.longest) j 0) j j (omega arith) ∙ update-at (t.longest) j 0

    given_back :
        (i : ℕ)
        → i + 1 < pow2 k * 2
        → climb_merge j (update after j (wide k j)) j (wide k j) i ≡ t.longest i
    given_back =
        climb_merge-restores k (t.longest) holds j (update after j (wide k j)) j (wide k j)
          (omega arith) inside refl (λ d. path (suc d))
          (
            update-at after j (wide k j) ∙ sym free,
            λ i h off. elim (same_or_not j i) [
              | inl e ↦
                  subst (λ x. update after j (wide k j) x ≡ t.longest x) e
                    (update-at after j (wide k j) ∙ sym free)
              | inr n ↦
                  update-other after j (wide k j) i n
                  ∙ climb_max-Off j (update (t.longest) j 0) j i off
                  ∙ update-other (t.longest) j 0 i n
            ],
          )

    lands :
        find_up ((j + 1) * wide k j - 1 + 1) after ((j + 1) * wide k j - 1) 1 ≡ some (j, wide k j)
    lands =
        let (low, high) = node_range j k j (omega arith) inside in
        let some_run = pow2-pos (height k j) in
        let pred : j + 1 - 1 ≡ j = omega arith in
        let once : 1 * wide k j ≡ wide k j = omega arith in
        let kept = λ (i : ℕ) (h : j + 1 ≤ i).
          climb_max-below j (update (t.longest) j 0) j i (omega arith)
          ∙ update-other (t.longest) j 0 i (omega arith) in
        let tiny = below_pow2 (height k j) in
        find_up-lands k (t.longest) after holds (j + 1) (omega arith)
          (subst (λ x. t.longest x ≡ wide k x) (sym pred) free) (ap after pred ∙ after_at) kept
          (height k j) ((j + 1) * wide k j - 1 + 1) 1 (omega arith) (omega arith)
        ∙ rw (pred, once) refl

    abbrev tree_after : BuddyTree
    tree_after = record t { longest = after }

    freed :
        (index : ℕ)
        → index ≡ (j + 1) * wide k j - 1
        → (i : ℕ) → i + 1 < pow2 k * 2
        → (free_at tree_after (find_up (index + 1) after index 1)).longest i ≡ t.longest i
    unfolding free_at
    freed index e i h =
        ap (λ n. (free_at tree_after (find_up (n + 1) after n 1)).longest i) e
        ∙ ap (λ there. (free_at tree_after there).longest i) lands
        ∙ given_back i h

    restored_at : (s : ℕ) → s ≡ wide k j → Restores k t (some ((j + 1) * s - t.size), tree_after)
    unfolding buddy_free
    restored_at s e =
        let (low, high) = node_range j k j (omega arith) inside in
        let same : (j + 1) * s ≡ (j + 1) * wide k j = ap (λ z. (j + 1) * z) e in
        restored (freed ((j + 1) * s - t.size + t.size - 1) (omega arith))

  -- Freeing the run that `buddyAlloc` has handed out for a request of up to 2 ^ 30 blocks gives
  -- back the tree from before, at every node, if that tree satisfies the invariant.
  pub buddy_free-buddy_alloc : Restores k t (buddy_alloc t blocks)
  unfolding buddy_alloc
  buddy_free-buddy_alloc =
      elim (Bool-cases (ltb (t.longest 0) (round_up blocks)))
        as (λ _. Restores k t (buddy_alloc t blocks)) [
          | inl e ↦ rw e nothing
          | inr e ↦
              let (inside, w, free, s, _) = found k t blocks sized holds bounded e in
              let path = path_found e in
              rw e (restored_at _ inside (free ∙ sym w) path _ (s ∙ sym w))
        ]
