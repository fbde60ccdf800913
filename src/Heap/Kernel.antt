-- ===== src/Heap/Kernel.antt =====
-- kernel/heap.c: `kalloc` and `kfree` over the buddy allocator, with the bytes of `HEAP`.
-- `base` is the address of `HEAP`, and memory is a function from addresses to bytes.
use moonix.Base.{
  ℕ, zero, suc, ◌+◌, ◌-◌, ◌*◌, ◌/◌, Option, none, some, update, ltb, ◌==◌, if◌then◌else◌, Run, ok,
  panic,
}
use moonix.Heap.{BuddyTree, buddy_init, buddy_alloc, buddy_free, fix_size}

abbrev pub kernel_heap_size : ℕ
kernel_heap_size = 0x800000

abbrev pub min_block_size : ℕ
min_block_size = 0x40

abbrev pub heap_block_num : ℕ
heap_block_num = 0x20000

pub record KernelHeap : Type 0 where
  pub tree : BuddyTree
  pub memory : ℕ → ℕ

unfoldable pub init_heap : KernelHeap → KernelHeap
init_heap h = record h { tree = buddy_init (h.tree) heap_block_num }

-- `for(i = 0; i < n; i ++) addr[i] = 0`
unfoldable pub clear : (ℕ → ℕ) → ℕ → ℕ → ℕ → ℕ
clear memory addr zero = memory
clear memory addr (suc n) = update (clear memory addr n) (addr + n) 0

unfoldable pub kalloc_at : ℕ → ℕ → KernelHeap → Option ℕ × BuddyTree → Run (ℕ × KernelHeap)
unfolding clear
kalloc_at base n h (none, tree) = panic
kalloc_at base n h (some block, tree) =
    let begin_addr = base + block * min_block_size in
    let total_bytes = fix_size n * min_block_size in
    ok (begin_addr, record { tree = tree; memory = clear (h.memory) begin_addr total_bytes })

-- A null pointer is 0.
unfoldable pub kalloc : ℕ → ℕ → KernelHeap → Run (ℕ × KernelHeap)
unfolding kalloc_at
kalloc base size h =
    let n = (size - 1) / min_block_size + 1 in
    if size == 0 then ok (0, h) else kalloc_at base n h (buddy_alloc (h.tree) n)

unfoldable pub kfree : ℕ → ℕ → KernelHeap → KernelHeap
kfree base ptr h =
    let offset = ptr - base in
    if ltb ptr base
    then h
    else if ltb (base + kernel_heap_size - min_block_size) ptr
    then h
    else record h { tree = buddy_free (h.tree) (offset / min_block_size) }
