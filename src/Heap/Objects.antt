-- ===== src/Heap/Objects.antt =====
-- `kalloc` and `kfree` of kernel/heap.c for objects of up to one block, as the queue of kernel/queue.c
-- uses them: they fill the interface that their clients rely on.
use moonix.Base.{
  ℕ, zero, suc, ◌+◌, ◌-◌, ◌*◌, ◌/◌, ◌%◌, ◌≤◌, ◌<◌, ◌≡◌, ◌≢◌, refl, sym, ap, ◌∙◌, arith, Bool, true,
  false, ◌&&◌, some, update, update-at, update-other, ltb, leb, ◌==◌, if◌then◌else◌, Run, Returns,
  returns, same_or_not, inl, inr, Bool-cases,
}
use moonix.Heap.{
  BuddyTree, left_leaf, right_leaf, parent, round_up, find_up, climb_merge, free_at, buddy_free,
}
use moonix.Heap.Bits.{pow2-pos}
use moonix.Heap.Interface.{Allocator}
use moonix.Heap.Invariant.{Above, next, further, merged}
use moonix.Heap.Kalloc.{
  IsHeap, Allocated, exhausted, allocated, kalloc-Allocated, kfree-IsHeap, heap_blocks,
}
use moonix.Heap.Nodes.{height}
use moonix.Heap.Kernel.{KernelHeap, kalloc, kfree, kernel_heap_size, min_block_size, heap_block_num}

-- `sizeof(Node)` of kernel/queue.h.
abbrev pub node_size : ℕ
node_size = 16

-- The node of the tree for the block at an address.
abbrev leaf_at : ℕ → ℕ → ℕ
leaf_at base p = (p - base) / min_block_size + (heap_block_num - 1)

-- Whether `p` is the address of a block.
abbrev is_block : ℕ → ℕ → Bool
is_block base p =
    leb base p && ((p - base) % min_block_size == 0) && ltb (p - base) kernel_heap_size

-- A block that is in use by itself.
abbrev pub block_in_use : ℕ → KernelHeap → ℕ → Bool
block_in_use base h p = is_block base p && (h.tree.longest (leaf_at base p) == 0)

Above-less : (a j : ℕ) → Above a j → a * 2 + 1 ≤ j
Above-less a j (next pos e) = omega arith
Above-less a j (further {b} pos e above) = omega (arith, Above-less a b above)

-- `buddyFree` writes to the nodes above only, when it merges.
climb_merge-other :
    (fuel : ℕ) (l : ℕ → ℕ) (c w i : ℕ) → ¬ (Above i c) → climb_merge fuel l c w i ≡ l i
unfolding climb_merge
climb_merge-other zero l c w i apart = refl
climb_merge-other (suc fuel) l c w i apart =
    let p = parent c in
    let v = merged (w * 2) (l (left_leaf p)) (l (right_leaf p)) in
    elim (same_or_not c 0) [
      | inl e ↦ let top : c == 0 ≡ true = ground arith in rw top refl
      | inr n ↦
          let inner : c == 0 ≡ false = ground arith in
          rw inner (
            climb_merge-other fuel (update l p v) p (w * 2) i
              (λ up. apart (further (omega arith) refl up))
            ∙ update-other l p v i (λ e. apart (next (omega arith) (sym e))))
    ]

find_up-here :
    (fuel : ℕ) (l : ℕ → ℕ) (c w : ℕ) → 0 < fuel → l c ≡ 0 → find_up fuel l c w ≡ some (c, w)
unfolding find_up
find_up-here zero l c w pos used = absurd (omega arith)
find_up-here (suc fuel) l c w pos used = let here : l c == 0 ≡ true = ground arith in rw here refl

-- Freeing a block that is in use by itself frees this block, and no other.
free_block :
    (t : BuddyTree) (offset i : ℕ)
    → t.longest (offset + t.size - 1) ≡ 0
    → offset < t.size
    → t.size ≤ i + 1
    → (buddy_free t offset).longest i ≡ update (t.longest) (offset + t.size - 1) 1 i
unfolding buddy_free free_at
free_block t offset i used low leaf =
    let c = offset + t.size - 1 in
    ap (λ there. (free_at t there).longest i)
      (find_up-here (c + 1) (t.longest) c 1 (omega arith) used)
    ∙ climb_merge-other c (update (t.longest) c 1) c 1 i
        (λ up. absurd (omega (arith, Above-less i c up)))

one_block : round_up ((node_size - 1) / min_block_size + 1) ≡ 1
unfolding round_up
one_block = refl

module _ (base : ℕ) (some_base : 0 < base) where
  -- What is known of an address of a block.
  block_facts :
      (p : ℕ)
      → is_block base p ≡ true
      → (base ≤ p) × ((p - base) % min_block_size ≡ 0) × (p - base < kernel_heap_size)
  block_facts p h = (ground arith, ground arith, ground arith)

  same_leaf :
      (p q : ℕ)
      → is_block base p ≡ true
      → is_block base q ≡ true
      → leaf_at base p ≡ leaf_at base q
      → p ≡ q
  same_leaf p q hp hq e =
      let (a, b, c) = block_facts p hp in let (a', b', c') = block_facts q hq in omega arith

  -- One leaf, that of `n`, changes.
  one_changes :
      (h h' : KernelHeap) (n : ℕ) (v : Bool)
      → is_block base n ≡ true
      → (h'.tree.longest (leaf_at base n) == 0 ≡ v)
      → ((i : ℕ)
          → heap_block_num ≤ i + 1
          → i ≢ leaf_at base n
          → h'.tree.longest i ≡ h.tree.longest i)
      → (m : ℕ) → block_in_use base h' m ≡ (if n == m then v else block_in_use base h m)
  one_changes h h' n v block own others m = elim (same_or_not n m) [
    | inl e ↦
        let same : n == m ≡ true = ground arith in
        let there : leaf_at base m ≡ leaf_at base n = ap (leaf_at base) (sym e) in
        let block' : is_block base m ≡ true = ap (is_block base) (sym e) ∙ block in
        rw (same, block', there, own) refl
    | inr other ↦
        let differ : n == m ≡ false = ground arith in
        elim (Bool-cases (is_block base m)) [
          | inl yes' ↦
              let kept =
                others (leaf_at base m) (omega arith)
                  (λ e. other (same_leaf n m block yes' (sym e))) in
              rw (differ, yes', kept) refl
          | inr no' ↦ rw (differ, no') refl
        ]
  ]

  pub Allocated-fresh :
      (h : KernelHeap) (call : Run (ℕ × KernelHeap))
      → Allocated base node_size h call
      → 0 < h.tree.longest 0
      → Returns
          (λ (n, h').
            IsHeap h'
            × (n ≢ 0)
            × (block_in_use base h n ≡ false)
            × ((m : ℕ) → block_in_use base h' m ≡ (if n == m then true else block_in_use base h m)))
          call
  Allocated-fresh h _ (exhausted short) room = absurd (omega (arith, one_block))
  Allocated-fresh h _ (allocated {addr} {h'} j run place low high fits zeros outside holds) room =
      let one = one_block in
      let blocks = heap_blocks in
      let place' : addr + kernel_heap_size ≡ base + (j + 1) * 1 * min_block_size =
        rw one at place in
      let high' : addr + 1 * min_block_size ≤ base + kernel_heap_size = rw one at high in
      let leaf : leaf_at base addr ≡ j = omega arith in
      let in_heap : addr - base < kernel_heap_size = omega arith in
      let aligned : (addr - base) % min_block_size ≡ 0 = omega arith in
      let block : is_block base addr ≡ true = ground arith in
      let free = run.free in
      let pos = pow2-pos (height 17 j) in
      let was_free : h.tree.longest (leaf_at base addr) == 0 ≡ false = rw leaf (ground arith) in
      let held : h'.tree.longest (leaf_at base addr) == 0 ≡ true =
        rw leaf (let e = run.held in ground arith) in
      returns (
        holds,
        omega arith,
        rw (block, was_free) refl,
        one_changes h h' addr true block held (λ i low_i other.
            run.others i (λ e. other (e ∙ sym leaf))
              (λ up. absurd (omega (arith, Above-less i j up, run.inside)))),
      )

  kfree_inside :
      (n : ℕ) (h : KernelHeap)
      → base ≤ n
      → n - base < kernel_heap_size
      → (n - base) % min_block_size ≡ 0
      → kfree base n h ≡ record h { tree = buddy_free (h.tree) ((n - base) / min_block_size) }
  unfolding kfree
  kfree_inside n h low high aligned =
      let e : ltb n base ≡ false = ground arith in
      let e' : ltb (base + kernel_heap_size - min_block_size) n ≡ false = ground arith in
      rw (e, e') refl

  pub freed :
      (n : ℕ) (h : KernelHeap)
      → IsHeap h
      → block_in_use base h n ≡ true
      → IsHeap (kfree base n h)
        × ((m : ℕ)
            → block_in_use base (kfree base n h) m
              ≡ (if n == m then false else block_in_use base h m))
  freed n h holds used =
      let block : is_block base n ≡ true = ground arith in
      let zero_leaf : h.tree.longest (leaf_at base n) ≡ 0 = ground arith in
      let (low, aligned, in_heap) = block_facts n block in
      let sized = holds.sized in
      let blocks = heap_blocks in
      let offset = (n - base) / min_block_size in
      let leaf : offset + h.tree.size - 1 ≡ leaf_at base n = omega arith in
      let after = kfree_inside n h low in_heap aligned in
      let change = λ (i : ℕ) (low_i : heap_block_num ≤ i + 1).
        free_block (h.tree) offset i (ap (h.tree.longest) leaf ∙ zero_leaf) (omega arith)
          (omega arith) in
      let now : (buddy_free (h.tree) offset).longest (leaf_at base n) ≡ 1 =
        change (leaf_at base n) (omega arith)
        ∙ ap (λ c. update (h.tree.longest) c 1 (leaf_at base n)) leaf
        ∙ update-at (h.tree.longest) (leaf_at base n) 1 in
      (
        kfree-IsHeap base n h holds,
        rw after (
            one_changes h (record h { tree = buddy_free (h.tree) offset }) n false block
              (rw now refl)
              (λ i low_i other.
                change i low_i ∙ update-other (h.tree.longest) _ 1 i (λ e. other (sym e ∙ leaf)))),
      )

  -- The heap of the kernel, for the nodes of kernel/queue.c.
  abbrev pub objects : Allocator
  objects = record {
    State = KernelHeap;
    kalloc = kalloc base node_size;
    kfree = kfree base;
    in_use = block_in_use base;
    Valid = IsHeap;
    Room = λ h. 0 < h.tree.longest 0;
    kalloc-fresh = λ h holds room.
        Allocated-fresh h (kalloc base node_size h)
          (kalloc-Allocated base node_size h holds (omega arith) (omega arith)) room;
    kfree-frees = freed;
  }
