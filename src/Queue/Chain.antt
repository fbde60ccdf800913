-- ===== src/Queue/Chain.antt =====
-- The linked queue of kernel/queue.c refines a list.
use mathlib.Core.Path.{subst}
use moonix.Base.{
  ℕ, ◌≡◌, ◌≢◌, refl, sym, ap, ◌∙◌, arith, ◌⊎◌, inl, inr, true, false, ◌&&◌, List, [], ◌∷◌, ◌++◌,
  has, has-snoc, length, Returns-bind, update, update-at, update-other, ◌==◌, if◌then◌else◌,
  Returns, Returns-ok, Bool-cases, IsDistinct, IsDistinct-snoc,
}
use moonix.Queue.{Node, Queue, Nodes, is_empty, append, push_back, pop_front}
use moonix.Heap.Interface.{Allocator}

-- From node `h` to node `t` the nodes `ps` are linked, and they hold `xs`.
pub data Chain (memory : ℕ → Node) : ℕ → ℕ → List ℕ → List ℕ → Type 0 where
  last : {t x : ℕ} → (memory t).item ≡ x → Chain memory t t (x ∷ []) (t ∷ [])
  more :
      {h n t x : ℕ} {xs ps : List ℕ}
      → (memory h).item ≡ x
      → (memory h).next ≡ n
      → Chain memory n t xs ps
      → Chain memory h t (x ∷ xs) (h ∷ ps)

has_tail : {memory : ℕ → Node} {h t : ℕ} {xs ps : List ℕ} → Chain memory h t xs ps → has t ps ≡ true
has_tail (last e) = ground arith
has_tail (more e n c) = ground (arith, has_tail c)

-- Nodes outside of the chain do not matter.
Chain-frame :
    {memory memory' : ℕ → Node} {h t : ℕ} {xs ps : List ℕ}
    → ((p : ℕ) → has p ps ≡ true → memory' p ≡ memory p)
    → Chain memory h t xs ps
    → Chain memory' h t xs ps
Chain-frame same (last e) = last (ap (λ x. x.item) (same _ (ground arith)) ∙ e)
Chain-frame same (more e n c) =
    more (ap (λ x. x.item) (same _ (ground arith)) ∙ e)
      (ap (λ x. x.next) (same _ (ground arith)) ∙ n) (Chain-frame (λ p h. same p (ground arith)) c)

apart : {p t : ℕ} (ps : List ℕ) → has p ps ≡ false → has t ps ≡ true → p ≢ t
apart ps absent present e =
    let absent' = subst (λ z. has z ps ≡ false) e absent in absurd (ground arith)

-- A node linked behind the last one.
Chain-snoc :
    {memory memory' : ℕ → Node} {h t n x : ℕ} {xs ps : List ℕ}
    → Chain memory h t xs ps
    → IsDistinct ps
    → ((p : ℕ) → has p ps ≡ true → p ≢ t → memory' p ≡ memory p)
    → (memory' t).item ≡ (memory t).item
    → (memory' t).next ≡ n
    → (memory' n).item ≡ x
    → Chain memory' h n (xs ++ x ∷ []) (ps ++ n ∷ [])
Chain-snoc (last e) d same item next own = more (item ∙ e) next (last own)
Chain-snoc (more {h} {t} e l c) (absent, d) same item next own =
    let other : h ≢ t = apart _ absent (has_tail c) in
    more (ap (λ z. z.item) (same _ (ground arith) other) ∙ e)
      (ap (λ z. z.next) (same _ (ground arith) other) ∙ l)
      (Chain-snoc c d (λ p h. same p (ground arith)) item next own)

has_head : {memory : ℕ → Node} {h t : ℕ} {xs ps : List ℕ} → Chain memory h t xs ps → has h ps ≡ true
has_head (last e) = ground arith
has_head (more e n c) = ground arith

module _ (a : Allocator) where
  -- The queue holds `xs`, the first to be popped in front, in nodes that are in use in a
  -- valid heap.
  pub data Holds (q : Queue) (s : Nodes a) : List ℕ → Type 0 where
    nothing : a.Valid (s.heap) → q.head ≡ 0 → q.tail ≡ 0 → Holds q s []
    nodes :
        {xs ps : List ℕ}
        → a.Valid (s.heap)
        → Chain (s.memory) (q.head) (q.tail) xs ps
        → IsDistinct ps
        → ((p : ℕ) → has p ps ≡ true → (a.in_use (s.heap) p ≡ true) × (p ≢ 0))
        → Holds q s xs

  Holds-Valid : (q : Queue) (s : Nodes a) (xs : List ℕ) → Holds q s xs → a.Valid (s.heap)
  Holds-Valid q s xs (nothing valid e e') = valid
  Holds-Valid q s xs (nodes valid c d used) = valid

  -- `isEmpty` tells whether the queue holds nothing.
  pub is_empty-Holds :
      (q : Queue) (s : Nodes a) (xs : List ℕ) → Holds q s xs → is_empty q ≡ (length xs == 0)
  unfolding is_empty
  is_empty-Holds q s xs (nothing valid e e') = ground arith
  is_empty-Holds q s xs (nodes valid (last e) d used) =
      let own = used (q.head) (ground arith) in ground arith
  is_empty-Holds q s xs (nodes valid (more e n c) d used) =
      let own = used (q.head) (ground arith) in ground arith

  module _ (q : Queue) (s : Nodes a) (x n : ℕ) (heap : a.State) (valid : a.Valid heap)
      (some : n ≢ 0) (free : a.in_use (s.heap) n ≡ false)
      (kept : (m : ℕ) → a.in_use heap m ≡ (if n == m then true else a.in_use (s.heap) m)) where
    only : {p : ℕ} → has p (n ∷ []) ≡ true → n ≡ p
    only h = ground arith

    snoc_cases : {p : ℕ} (ps : List ℕ) → has p (ps ++ n ∷ []) ≡ true → (has p ps ≡ true) ⊎ (n ≡ p)
    snoc_cases {p = p} ps h = ground (arith, has-snoc p n ps)

    unused :
        (ps : List ℕ)
        → ((p : ℕ) → has p ps ≡ true → (a.in_use (s.heap) p ≡ true) × (p ≢ 0))
        → has n ps ≡ false
    unused ps used = elim (Bool-cases (has n ps)) [
      | inl h ↦ let (live, _) = used n h in absurd (ground arith)
      | inr h ↦ h
    ]

    -- Linking a fresh node, its link 0.
    appended :
        (xs : List ℕ)
        → Holds q s xs
        → let fresh = update (s.memory) n (record { item = x; next = 0 }) in
          let (memory, q') = append fresh q n in
          Holds q' (record { memory = memory; heap = heap }) (xs ++ x ∷ [])
    unfolding append
    appended _ (nothing old e e') =
        let empty : q.head == q.tail && q.head == 0 ≡ true = ground arith in
        rw empty (
          nodes valid (last (ap (λ (z : Node). z.item) (update-at (s.memory) n _))) (refl, tt)
            (λ p h. let e = only h in (kept p ∙ ground arith, λ z. some (e ∙ z))))
    appended xs (nodes {ps} old c d used) =
        let own : Node = record { item = x; next = 0 } in
        let fresh = update (s.memory) n own in
        let (_, head_some) = used (q.head) (has_head c) in
        let more : q.head == q.tail && q.head == 0 ≡ false = ground arith in
        let absent = unused ps used in
        let other : (p : ℕ) → has p ps ≡ true → n ≢ p = λ p h z. apart ps absent h z in
        let not_tail = other (q.tail) (has_tail c) in
        rw more (
          nodes valid
            (Chain-snoc c d
              (λ p h p'.
                update-other fresh (q.tail) _ p (λ z. p' (sym z))
                ∙ update-other (s.memory) n own p (other p h))
              (ap (λ (z : Node). z.item) (update-at fresh (q.tail) _)
                ∙ ap (λ (z : Node). z.item) (update-other (s.memory) n own (q.tail) not_tail))
              (ap (λ (z : Node). z.next) (update-at fresh (q.tail) _))
              (ap (λ (z : Node). z.item)
                (update-other fresh (q.tail) _ n (λ z. not_tail (sym z))
                  ∙ update-at (s.memory) n own)))
            (IsDistinct-snoc n ps d absent)
            (λ p h. elim (snoc_cases ps h) [
              | inl old ↦ let (live, some') = used p old in (kept p ∙ ground arith, some')
              | inr e ↦ (kept p ∙ ground arith, λ z. some (e ∙ z))
            ]))

  popped :
      (q : Queue) (s : Nodes a) (x : ℕ) (xs ps : List ℕ) (h t : ℕ)
      → q.head ≡ h
      → q.tail ≡ t
      → a.Valid (s.heap)
      → Chain (s.memory) h t (x ∷ xs) ps
      → IsDistinct ps
      → ((p : ℕ) → has p ps ≡ true → (a.in_use (s.heap) p ≡ true) × (p ≢ 0))
      → let (y, q', s') = pop_front a q s in (y ≡ x) × Holds q' s' xs
  unfolding pop_front
  popped q s x _ _ h t eh et valid (last e) d used =
      let (head_used, _) = used h (ground arith) in
      let (valid', _) =
        a.kfree-frees (q.head) (s.heap) valid (ap (a.in_use (s.heap)) eh ∙ head_used) in
      let single : q.head == q.tail ≡ true = ground arith in
      rw single (ap (λ p. (s.memory p).item) eh ∙ e, nothing valid' refl refl)
  popped q s x xs (_ ∷ ps) h t eh et valid (more e n c) (absent, d) used =
      let (head_used, _) = used h (ground arith) in
      let (valid', freed) =
        a.kfree-frees (q.head) (s.heap) valid (ap (a.in_use (s.heap)) eh ∙ head_used) in
      let not_tail = apart ps absent (has_tail c) in
      let several : q.head == q.tail ≡ false = ground arith in
      rw several (
        ap (λ p. (s.memory p).item) eh ∙ e,
        nodes valid' (rw (ap (λ p. (s.memory p).next) eh ∙ n, et) c) d (λ p present.
            let (live, some) = used p (ground arith) in
            let other = apart ps absent present in (freed p ∙ ground arith, some)),
      )

  -- `pushBack` returns, with its argument behind what the queue held in a valid heap, while the heap has a
  -- free block.
  pub push_back-snoc :
      (q : Queue) (s : Nodes a) (x : ℕ) (xs : List ℕ)
      → Holds q s xs
      → a.Room (s.heap)
      → Returns (λ (q', s'). Holds q' s' (xs ++ x ∷ [])) (push_back a q x s)
  unfolding push_back
  push_back-snoc q s x xs holds room =
      Returns-bind (a.kalloc-fresh (s.heap) (Holds-Valid q s xs holds) room)
        (λ (n, heap) (valid, some, free, kept).
          Returns-ok refl (appended q s x n heap valid some free kept xs holds))

  -- `popFront` gives what was in front and leaves the rest.
  pub pop_front-cons :
      (q : Queue) (s : Nodes a) (x : ℕ) (xs : List ℕ)
      → Holds q s (x ∷ xs)
      → let (y, q', s') = pop_front a q s in (y ≡ x) × Holds q' s' xs
  unfolding pop_front
  pop_front-cons q s x xs (nodes valid c d used) = popped q s x xs _ _ _ refl refl valid c d used
