-- ===== src/Heap/Tests.antt =====
-- Runs of the buddy allocator of kernel/heap.c on 4 blocks, and its theorems at concrete trees.
use moonix.Base.{ℕ, List, [], ◌∷◌, ◌<◌, ◌≡◌, refl, arith, Option, none, some}
use moonix.Heap.{BuddyTree, buddy_init, buddy_alloc, buddy_free}
use moonix.Heap.Alloc.{Served, buddy_alloc-Served}
use moonix.Heap.Bits.{pow2}
use moonix.Heap.Free.{buddy_free-IsBuddy}
use moonix.Heap.Init.{buddy_init-IsBuddy}
use moonix.Heap.Invariant.{IsBuddy}
use moonix.Heap.Kalloc.{IsHeap, Allocated, kalloc-Allocated}
use moonix.Heap.Restore.{Restores, buddy_free-buddy_alloc}
use moonix.Heap.Kernel.{KernelHeap, kalloc}

abbrev blank_tree : BuddyTree
blank_tree = record { size = 0; longest = λ i. 0 }

abbrev four : BuddyTree
four = buddy_init blank_tree 4

-- The runs that three requests for one block and one for two get.
abbrev requests : List (Option ℕ)
requests =
    let a = buddy_alloc four 1 in
    let b = buddy_alloc (a.1) 2 in
    let c = buddy_alloc (b.1) 1 in let d = buddy_alloc (c.1) 1 in a.0 ∷ b.0 ∷ c.0 ∷ d.0 ∷ []

requests_served : requests ≡ some 0 ∷ some 2 ∷ some 1 ∷ none ∷ []
unfolding buddy_init buddy_alloc
requests_served = refl

-- The run that is given back can be handed out again.
reused : (buddy_alloc (buddy_free ((buddy_alloc four 4).1) 0) 3).0 ≡ some 0
unfolding buddy_init buddy_alloc buddy_free
reused = refl

blank-IsBuddy : (k : ℕ) → IsBuddy k ((buddy_init blank_tree (pow2 k)).longest)
blank-IsBuddy k = let (_, _, holds) = buddy_init-IsBuddy k blank_tree in holds

abbrev tree_of_4 : BuddyTree
tree_of_4 = buddy_init blank_tree (pow2 2)

tree_of_4-size : tree_of_4.size ≡ pow2 2
tree_of_4-size = let (sized, _, _) = buddy_init-IsBuddy 2 blank_tree in sized

buddy_alloc-Served_example : Served 2 3 tree_of_4 (buddy_alloc tree_of_4 3)
buddy_alloc-Served_example =
    buddy_alloc-Served 2 tree_of_4 3 tree_of_4-size (blank-IsBuddy 2) (omega arith)

two : 1 < pow2 2
unfolding pow2
two = omega arith

buddy_free-IsBuddy_example : IsBuddy 2 ((buddy_free tree_of_4 1).longest)
buddy_free-IsBuddy_example = buddy_free-IsBuddy 2 tree_of_4 tree_of_4-size (blank-IsBuddy 2) 1 two

abbrev fresh_heap : KernelHeap
fresh_heap = record { tree = buddy_init blank_tree (pow2 17); memory = λ a. 7 }

fresh_heap-IsHeap : IsHeap fresh_heap
fresh_heap-IsHeap =
    let (sized, _, holds) = buddy_init-IsBuddy 17 blank_tree in
    record { sized = sized; buddy = holds }

kalloc-Allocated_example : Allocated 0x80000000 100 fresh_heap (kalloc 0x80000000 100 fresh_heap)
kalloc-Allocated_example =
    kalloc-Allocated 0x80000000 100 fresh_heap fresh_heap-IsHeap (omega arith) (omega arith)

buddy_free-buddy_alloc_example : Restores 2 tree_of_4 (buddy_alloc tree_of_4 3)
buddy_free-buddy_alloc_example =
    buddy_free-buddy_alloc 2 tree_of_4 3 tree_of_4-size (blank-IsBuddy 2) (omega arith)
