-- ===== src/Queue/Tests.antt =====
-- A run of a queue whose nodes come from an allocator that never uses an address twice, and the theorems
-- over the kernel's heap.
use moonix.Base.{
  ℕ, ◌+◌, ◌∙◌, ◌≡◌, ◌≢◌, refl, arith, Bool, true, false, [], ◌∷◌, Run, ok, ◌>>=◌, Returns,
  Returns-ok, Returns-inv, if◌then◌else◌, update, ◌==◌,
}
use moonix.Heap.{BuddyTree, buddy_init}
use moonix.Heap.Bits.{pow2, pow2-pos}
use moonix.Heap.Init.{buddy_init-IsBuddy}
use moonix.Heap.Interface.{Allocator}
use moonix.Heap.Kalloc.{IsHeap}
use moonix.Heap.Kernel.{KernelHeap}
use moonix.Heap.Nodes.{height}
use moonix.Heap.Objects.{objects}
use moonix.Queue.{Queue, Nodes, is_empty, append, push_back, pop_front}
use moonix.Queue.Chain.{Holds, nothing, nodes, last, push_back-snoc}

-- The next address, and which are in use.
abbrev bump : Allocator
bump = record {
  State = ℕ × (ℕ → Bool);
  kalloc = λ (n, used). ok (n, (n + 64, update used n true));
  kfree = λ p (n, used). (n, update used p false);
  in_use = λ (n, used). used;
  Valid = λ s. Unit;
  Room = λ (n, used). (n ≢ 0) × (used n ≡ false);
  kalloc-fresh = λ (n, used) valid (some, free). Returns-ok refl (tt, some, free, λ m. refl);
  kfree-frees = λ p s valid used. (tt, λ m. refl);
}

abbrev bump_nodes : Nodes bump
bump_nodes = record { memory = λ p. record { item = 7; next = 7 }; heap = (64, λ p. false) }

abbrev pub empty : Queue
empty = record { head = 0; tail = 0 }

-- 5, then 6 go in; 5 comes out first, then 6, and then the queue is empty.
abbrev five_six : Run (Queue × Nodes bump)
five_six = push_back bump empty 5 bump_nodes >>= λ (q, s). push_back bump q 6 s

abbrev taken : Queue × Nodes bump → Run (ℕ × ℕ × Bool × Bool)
taken (q, s) =
    let (x, q2, s2) = pop_front bump q s in
    let (y, q3, s3) = pop_front bump q2 s2 in ok (x, y, is_empty q, is_empty q3)

in_order : (five_six >>= taken) ≡ ok (5, 6, false, true)
unfolding push_back pop_front is_empty append
in_order = refl

-- The heap of the kernel, of which nothing is used.
abbrev pub kernel_objects : Allocator
kernel_objects = objects 0x8000_0000 (omega arith)

abbrev blank_tree : BuddyTree
blank_tree = record { size = 0; longest = λ i. 0 }

abbrev pub fresh_heap : KernelHeap
fresh_heap = record { tree = buddy_init blank_tree (pow2 17); memory = λ a. 7 }

pub fresh-IsHeap : IsHeap fresh_heap
fresh-IsHeap =
    let (sized, _, holds) = buddy_init-IsBuddy 17 blank_tree in
    record { sized = sized; buddy = holds }

abbrev pub no_nodes : Nodes kernel_objects
no_nodes = record { memory = λ p. record { item = 7; next = 7 }; heap = fresh_heap }

pub empty-Holds : Holds kernel_objects empty no_nodes []
empty-Holds = nothing fresh-IsHeap refl refl

pub room : kernel_objects.Room fresh_heap
room =
    let (sized, wide, holds) = buddy_init-IsBuddy 17 blank_tree in
    let root = wide 0 (omega (arith, pow2-pos 17)) in omega (arith, root, pow2-pos (height 17 0))

-- The heap after one node has been allocated, and the node.
abbrev first :
    (result : ℕ × KernelHeap) × (kernel_objects.kalloc fresh_heap ≡ ok result)
    × (IsHeap (result.1)
        × (result.0 ≢ 0)
        × (kernel_objects.in_use fresh_heap (result.0) ≡ false)
        × ((m : ℕ)
            → kernel_objects.in_use (result.1) m
              ≡ (if result.0 == m then true else kernel_objects.in_use fresh_heap m)))
first = Returns-inv (kernel_objects.kalloc-fresh fresh_heap fresh-IsHeap room)

abbrev pub used_heap : KernelHeap
used_heap = first.0.1

abbrev pub single : Queue
single = record { head = first.0.0; tail = first.0.0 }

-- It is in use in a valid heap.
pub single-Holds :
    (x : ℕ)
    → Holds kernel_objects single
        (record { memory = λ p. record { item = x; next = 0 }; heap = used_heap })
        (x ∷ [])
single-Holds x =
    let (valid, some_node, free, kept) = first.2 in
    nodes valid (last refl) (refl, tt)
      (λ p h.
        let e : first.0.0 ≡ p = ground arith in
        let same : first.0.0 == p ≡ true = ground arith in
        (kept p ∙ ground arith, λ z. some_node (e ∙ z)))

push_back-snoc_example :
    Returns
      (λ (q', s'). Holds kernel_objects q' s' (5 ∷ []))
      (push_back kernel_objects empty 5 no_nodes)
push_back-snoc_example = push_back-snoc kernel_objects empty no_nodes 5 [] empty-Holds room
