-- ===== src/Queue.antt =====
-- kernel/queue.c and kernel/queue.h: a linked queue of words. Its nodes lie in memory that
-- `kalloc` and `kfree` (kernel/heap.c) manage; of these the queue uses only the laws of
-- `Allocator`. Memory is a function from the addresses of nodes to nodes; the null pointer is 0.
pub mod Chain
pub mod Tests
use moonix.Base.{
  ℕ, ◌≡◌, refl, ◌+◌, ◌<◌, ◌≢◌, Bool, true, false, ◌&&◌, Run, ok, ◌>>=◌, update, ◌==◌, if◌then◌else◌,
  Returns,
}
use moonix.Heap.Interface.{Allocator}

pub record Node : Type 0 where
  pub item : ℕ
  pub next : ℕ

pub record Queue : Type 0 where
  pub head : ℕ
  pub tail : ℕ

pub record Nodes (a : Allocator) : Type 0 where
  pub memory : ℕ → Node
  pub heap : a.State

unfoldable pub is_empty : Queue → Bool
is_empty q = q.head == q.tail && q.head == 0

-- The node at `n` is the last one now.
unfoldable pub append : (ℕ → Node) → Queue → ℕ → (ℕ → Node) × Queue
append memory q n =
    if q.head == q.tail && q.head == 0
    then (memory, record { head = n; tail = n })
    else (update memory (q.tail) (record (memory (q.tail)) { next = n }), record q { tail = n })

module _ (a : Allocator) where
  unfoldable pub push_back : Queue → ℕ → Nodes a → Run (Queue × Nodes a)
  unfolding append
  push_back q x s = do
    (n, heap) ← a.kalloc (s.heap)
    let fresh = update (s.memory) n (record { item = x; next = 0 })
    let (memory, q') = append fresh q n
    ok (q', record { memory = memory; heap = heap })

  unfoldable pub pop_front : Queue → Nodes a → ℕ × Queue × Nodes a
  pop_front q s =
      let n = s.memory (q.head) in
      let q' =
        if q.head == q.tail then record { head = 0; tail = 0 } else record q { head = (n.next) } in
      (n.item, q', record s { heap = a.kfree (q.head) (s.heap) })
