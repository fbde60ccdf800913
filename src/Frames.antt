-- ===== src/Frames.antt =====
-- kernel/memory.c: the physical page frames, kept in a segment tree in an array. Node 1 is the
-- root, nodes `2 * p` and `2 * p + 1` are the children of `p`, the nodes from `first_single` on
-- are the pages; a node is 0 if there is a free page below it and 1 if there is none.
-- Page numbers and addresses are `usize` and wrap at 2 ^ 64. Node indices stay below
-- `2 * first_single` (`descend-Leaf`), which is at most the 0x10000 nodes of the array for ranges of
-- less than 0x7fff pages, so the array has no length here and their shifts are written without the wrap. Each loop
-- runs on fuel that the theorems show to be enough.
pub mod Init
pub mod Memory
pub mod Pages
pub mod Tests
pub mod Tree
use Prim.Native.Nat.{bit_and}
use moonix.Base.{
  ℕ, zero, suc, ◌+◌, ◌-◌, ◌*◌, ◌/◌, ◌%◌, ◌^◌, Bool, true, false, update, ltb, ◌==◌, if◌then◌else◌,
  Run, ok, panic, ◌>>=◌,
}

pub record Sta : Type 0 where
  pub node : ℕ → ℕ
  pub first_single : ℕ
  pub length : ℕ
  pub start_ppn : ℕ

-- `a - b` on `usize`.
abbrev pub sub64 : ℕ → ℕ → ℕ
sub64 a b = (a + 2 ^ 64 - b % 2 ^ 64) % 2 ^ 64

-- `while(sta.firstSingle < sta.length + 2) sta.firstSingle <<= 1`
unfoldable pub grow : ℕ → ℕ → ℕ → ℕ
grow zero fs length = fs
grow (suc fuel) fs length =
    let wider = grow fuel (fs * 2) length in if ltb fs (length + 2) then wider else fs

-- `for(i = lo; i < lo + rounds; i ++) node[i] = v`
unfoldable pub fill : (ℕ → ℕ) → ℕ → ℕ → ℕ → ℕ → ℕ
fill node zero lo v = node
fill node (suc rounds) lo v = fill (update node lo v) rounds (lo + 1) v

-- `node[p] = node[p << 1] & node[(p << 1) | 1]`
unfoldable pub join : (ℕ → ℕ) → ℕ → ℕ → ℕ
join node p = update node p (bit_and (node (p * 2)) (node (p * 2 + 1)))

-- `for(i = top; i >= 1; i --)` of `newAllocator`
unfoldable pub build : (ℕ → ℕ) → ℕ → ℕ → ℕ
build node zero = node
build node (suc i) = build (join node (suc i)) i

unfoldable pub new_allocator : ℕ → ℕ → Sta
unfolding grow fill join build
new_allocator start_ppn end_ppn =
    let length = sub64 end_ppn start_ppn in
    let fs = grow (length + 2) 1 length in
    let full = fill (λ _. 0) (fs * 2 - 1) 1 1 in
    let pages = fill full (length - 1) (fs + 1) 0 in
    record {
      node = build pages (fs - 1);
      first_single = fs;
      length = length;
      start_ppn = sub64 start_ppn 1;
    }

-- The loop of `alloc` from the root down to a page.
unfoldable pub descend : ℕ → (ℕ → ℕ) → ℕ → ℕ → ℕ
descend zero node fs p = p
descend (suc fuel) node fs p =
    let below = descend fuel node fs (if node (p * 2) == 0 then p * 2 else p * 2 + 1) in
    if ltb p fs then below else p

-- `while(p > 0)`: the loop of `alloc` and `dealloc` that brings the nodes from `p` up to the root
-- up to date.
unfoldable pub climb : ℕ → (ℕ → ℕ) → ℕ → ℕ → ℕ
climb zero node p = node
climb (suc fuel) node p =
    let above = climb fuel (join node p) (p / 2) in if ltb 0 p then above else node

unfoldable pub alloc : Sta → Run (ℕ × Sta)
unfolding descend climb join
alloc sta =
    let p = descend sta.first_single sta.node sta.first_single 1 in
    let result = (sub64 p sta.first_single + sta.start_ppn) % 2 ^ 64 in
    let node = climb (p / 2) (update sta.node p 1) (p / 2) in
    if sta.node 1 == 1 then panic else ok (result, record sta { node = node })

-- On a page that is free it only prints a message.
unfoldable pub dealloc : Sta → ℕ → Sta
unfolding climb join
dealloc sta ppn =
    let p = (sub64 ppn sta.start_ppn + sta.first_single) % 2 ^ 64 in
    let node = climb (p / 2) (update sta.node p 0) (p / 2) in
    if sta.node p == 1 then record sta { node = node } else sta

-- The page frames and the memory that they name.
pub record Frames : Type 0 where
  pub sta : Sta
  pub memory : ℕ → ℕ

abbrev pub page_size : ℕ
page_size = 4096

abbrev pub kernel_map_offset : ℕ
kernel_map_offset = 0xffff_ffff_0000_0000

-- `allocFrame`: the page is cleared through its kernel address, which is where the linear
-- mapping shows the physical address; `memory` is indexed by the physical one.
unfoldable pub alloc_frame : Frames → Run (ℕ × Frames)
unfolding fill
alloc_frame f = do
  (ppn, sta) ← alloc f.sta
  let start = ppn * page_size % 2 ^ 64
  ok (start, record { sta = sta; memory = fill f.memory page_size start 0 })

unfoldable pub dealloc_frame : Frames → ℕ → Frames
dealloc_frame f start_addr = record f { sta = dealloc f.sta (start_addr / page_size) }
