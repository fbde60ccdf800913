-- ===== src/Heap.antt =====
-- kernel/heap.c: the kernel heap, a buddy allocator over a complete binary tree in an array.
-- Node 0 is the root, `2 * i + 1` and `2 * i + 2` are the children of node `i`; `longest` of a
-- node is the length of the longest run of free blocks below it, a power of two, or 0 at a node
-- that has been handed out, whose children then keep their values.
-- For a tree of up to 2 ^ 29 blocks (the kernel has 2 ^ 17) and requests of up to 2 ^ 30 blocks no
-- `int` overflows, so the numbers have no width here. The -1 of `buddyAlloc` is `none`, and a
-- size that is not positive is 0.
pub mod Bits
pub mod Climb
pub mod Alloc
pub mod Free
pub mod Restore
pub mod Undo
pub mod Lands
pub mod Interface
pub mod Objects
mod Tests
pub mod Init
pub mod Kalloc
pub mod Kernel
pub mod Invariant
pub mod Runs
pub mod Nodes
use Prim.Native.Nat.{bit_and, bit_or, max}
use moonix.Base.{
  ℕ, zero, suc, ◌+◌, ◌-◌, ◌*◌, ◌/◌, ◌%◌, ◌^◌, Bool, true, false, not, Option, none, some, update,
  ltb, leb, ◌==◌, if◌then◌else◌, Run, ok, panic, ◌||◌,
}

abbrev pub left_leaf : ℕ → ℕ
left_leaf i = i * 2 + 1

abbrev pub right_leaf : ℕ → ℕ
right_leaf i = i * 2 + 2

-- `PARENT(0)` is -1 in C and is never used; it is 0 here.
abbrev pub parent : ℕ → ℕ
parent i = (i + 1) / 2 - 1

unfoldable pub is_power_of_2 : ℕ → Bool
is_power_of_2 x = bit_and x (x - 1) == 0

-- `n |= n >> j`, with `d` for `2 ^ j`.
unfoldable pub smear : ℕ → ℕ → ℕ
smear d n = bit_or n (n / d)

unfoldable pub fix_size : ℕ → ℕ
unfolding smear
fix_size size =
    let n = size - 1 in
    let n1 = smear 2 n in
    let n2 = smear 4 n1 in
    let n3 = smear 16 n2 in let n4 = smear 256 n3 in let n5 = smear 65536 n4 in n5 + 1

pub record BuddyTree : Type 0 where
  pub size : ℕ
  pub longest : ℕ → ℕ

-- The loop of `buddyInit`, with `rounds` nodes from `i` on left to set.
unfoldable pub init_nodes : (ℕ → ℕ) → ℕ → ℕ → ℕ → ℕ → ℕ
init_nodes longest zero i node_size = longest
init_nodes longest (suc rounds) i node_size =
    let node_size' = if is_power_of_2 (i + 1) then node_size / 2 else node_size in
    init_nodes (update longest i node_size') rounds (i + 1) node_size'

unfoldable pub buddy_init : BuddyTree → ℕ → BuddyTree
unfolding init_nodes is_power_of_2
buddy_init t size = record {
  size = size;
  longest = init_nodes t.longest (size * 2 - 1) 0 (size * 2);
}

-- The number of blocks that `buddyAlloc` looks for.
unfoldable pub round_up : ℕ → ℕ
unfolding fix_size is_power_of_2
round_up size = if size == 0 then 1 else if is_power_of_2 size then size else fix_size size

-- The child that `buddyAlloc` goes on to: the smaller one that is large enough.
unfoldable pub choose : (ℕ → ℕ) → ℕ → ℕ → ℕ
choose longest size index =
    let left = longest (left_leaf index) in
    let right = longest (right_leaf index) in
    if leb left right
    then (if leb size left then left_leaf index else right_leaf index)
    else if leb size right
    then right_leaf index
    else left_leaf index

-- The search from the root down; the node and its size.
unfoldable pub search_down : ℕ → (ℕ → ℕ) → ℕ → ℕ → ℕ → ℕ × ℕ
search_down zero longest size index node_size = (index, node_size)
search_down (suc fuel) longest size index node_size =
    let below = search_down fuel longest size (choose longest size index) (node_size / 2) in
    if node_size == size then (index, node_size) else below

-- `buddyAlloc` brings the nodes above `index` up to date.
unfoldable pub climb_max : ℕ → (ℕ → ℕ) → ℕ → ℕ → ℕ
climb_max zero longest index = longest
climb_max (suc fuel) longest index =
    let p = parent index in
    let widest = max (longest (left_leaf p)) (longest (right_leaf p)) in
    let above = climb_max fuel (update longest p widest) p in if index == 0 then longest else above

unfoldable pub buddy_alloc : BuddyTree → ℕ → Option ℕ × BuddyTree
unfolding round_up choose search_down climb_max
buddy_alloc t blocks =
    let size = round_up blocks in
    let (index, node_size) = search_down t.size t.longest size 0 t.size in
    let longest = climb_max index (update t.longest index 0) index in
    let offset = (index + 1) * node_size - t.size in
    if ltb (t.longest 0) size then (none, t) else (some offset, record t { longest = longest })

-- `buddyFree` looks for the node that was handed out; `none` if the root is reached.
unfoldable pub find_up : ℕ → (ℕ → ℕ) → ℕ → ℕ → Option (ℕ × ℕ)
find_up zero longest index node_size = none
find_up (suc fuel) longest index node_size =
    let above = find_up fuel longest (parent index) (node_size * 2) in
    if longest index == 0 then some (index, node_size) else if index == 0 then none else above

-- `buddyFree` merges free neighbours above `index`.
unfoldable pub climb_merge : ℕ → (ℕ → ℕ) → ℕ → ℕ → ℕ → ℕ
climb_merge zero longest index node_size = longest
climb_merge (suc fuel) longest index node_size =
    let p = parent index in
    let node_size' = node_size * 2 in
    let left = longest (left_leaf p) in
    let right = longest (right_leaf p) in
    let widest = if left + right == node_size' then node_size' else max left right in
    let above = climb_merge fuel (update longest p widest) p node_size' in
    if index == 0 then longest else above

unfoldable pub free_at : BuddyTree → Option (ℕ × ℕ) → BuddyTree
free_at t none = t
free_at t (some (index, node_size)) = record t {
  longest = climb_merge index (update t.longest index node_size) index node_size;
}

unfoldable pub buddy_free : BuddyTree → ℕ → BuddyTree
unfolding find_up climb_merge free_at
buddy_free t offset =
    let index = offset + t.size - 1 in free_at t (find_up (index + 1) t.longest index 1)
