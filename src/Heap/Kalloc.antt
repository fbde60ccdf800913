-- ===== src/Heap/Kalloc.antt =====
-- What `kalloc` and `kfree` (kernel/heap.c) promise their callers.
use moonix.Base.{
  ℕ, zero, suc, ◌+◌, ◌-◌, ◌*◌, ◌/◌, ◌≤◌, ◌<◌, ◌^◌, ◌≡◌, refl, sym, ◌∙◌, arith, false, Option, none,
  some, ltb, ◌==◌, Run, ok, panic, Bool-cases, inl, inr, ◌⊎◌,
}
use moonix.Heap.{BuddyTree, buddy_alloc, buddy_free, find_up, free_at, fix_size, round_up}
use moonix.Heap.Bits.{pow2, fix_size-pow2, round_up-pow2}
use moonix.Heap.Alloc.{pow2_gap, Served, full, taken, buddy_alloc-Served}
use moonix.Heap.Free.{buddy_free-IsBuddy}
use moonix.Heap.Invariant.{IsBuddy, Taken}
use moonix.Heap.Kernel.{
  KernelHeap, kalloc, kalloc_at, kfree, clear, kernel_heap_size, min_block_size, heap_block_num,
}

-- `HEAP` is 2 ^ 17 blocks of 64 bytes, and its tree satisfies the invariant.
pub record IsHeap (h : KernelHeap) : Type 0 where
  pub sized : h.tree.size ≡ pow2 17
  pub buddy : IsBuddy 17 (h.tree.longest)

clear-below : (memory : ℕ → ℕ) (addr n a : ℕ) → a < addr → clear memory addr n a ≡ memory a
unfolding clear
clear-below memory addr zero a h = refl
clear-below memory addr (suc n) a h = ground (arith, clear-below memory addr n a h)

clear-above : (memory : ℕ → ℕ) (addr n a : ℕ) → addr + n ≤ a → clear memory addr n a ≡ memory a
unfolding clear
clear-above memory addr zero a h = refl
clear-above memory addr (suc n) a h = ground (arith, clear-above memory addr n a (omega arith))

clear-at : (memory : ℕ → ℕ) (addr n i : ℕ) → i < n → clear memory addr n (addr + i) ≡ 0
unfolding clear
clear-at memory addr zero i h = absurd (omega arith)
clear-at memory addr (suc n) i h =
    let last : (i < n) ⊎ (i ≡ n) = omega arith in
    elim last [ inl less ↦ ground (arith, clear-at memory addr n i less) | inr e ↦ ground arith ]

same_pow2 :
    (a b n : ℕ) → n ≤ pow2 a → pow2 a < n * 2 → n ≤ pow2 b → pow2 b < n * 2 → pow2 a ≡ pow2 b
same_pow2 a b n p q r s =
    let cases : (pow2 a < pow2 b) ⊎ ((pow2 b < pow2 a) ⊎ (pow2 a ≡ pow2 b)) = omega arith in
    elim cases [
      | inl less ↦ absurd (omega (arith, pow2_gap a b less))
      | inr (inl more) ↦ absurd (omega (arith, pow2_gap b a more))
      | inr (inr e) ↦ e
    ]

one_block : fix_size 1 ≡ round_up 1
unfolding fix_size round_up
one_block = refl

pub heap_blocks : pow2 17 ≡ heap_block_num
unfolding pow2
heap_blocks = refl

-- The length that `kalloc` clears is the length of the run that it got.
pub fix_size-round_up : (n : ℕ) → 0 < n → n ≤ 2 ^ 31 → fix_size n ≡ round_up n
fix_size-round_up zero p q = absurd (omega arith)
fix_size-round_up (suc zero) p q = one_block
fix_size-round_up (suc (suc n)) p q =
    let (a, e, lo, hi) = fix_size-pow2 (suc (suc n)) (omega arith) q in
    let (b, e', lo', hi') = round_up-pow2 (suc (suc n)) p q in
    e ∙ same_pow2 a b (suc (suc n)) lo hi lo' hi' ∙ sym e'

-- The length in bytes of the run for `size` bytes.
abbrev pub run_bytes : ℕ → ℕ
run_bytes size = round_up ((size - 1) / min_block_size + 1) * min_block_size

-- What `kalloc` promises for `size` bytes at the address `base` of `HEAP`. It panics only if no
-- run is long enough. Else the bytes lie in the heap and are 0, in a run of which nothing had been
-- handed out and that is handed out now; what is outside of the run is as before, and the heap
-- keeps its invariant.
pub data Allocated (base size : ℕ) (h : KernelHeap) : Run (ℕ × KernelHeap) → Type 0 where
  exhausted :
      h.tree.longest 0 < round_up ((size - 1) / min_block_size + 1) → Allocated base size h panic
  allocated :
      {addr : ℕ} {h' : KernelHeap}
      → (j : ℕ) → Taken 17 (h.tree.longest) (h'.tree.longest) j
      → addr + kernel_heap_size
        ≡ base + (j + 1) * round_up ((size - 1) / min_block_size + 1) * min_block_size
      → base ≤ addr
      → addr + run_bytes size ≤ base + kernel_heap_size
      → size ≤ run_bytes size
      → ((i : ℕ) → i < size → h'.memory (addr + i) ≡ 0)
      → ((a : ℕ) → (a < addr) ⊎ (addr + run_bytes size ≤ a) → h'.memory a ≡ h.memory a)
      → IsHeap h'
      → Allocated base size h (ok (addr, h'))

module _ (base size : ℕ) (h : KernelHeap) (holds : IsHeap h) (pos : 0 < size)
    (fits : size < 2 ^ 31) where
  served :
      (answer : Option ℕ × BuddyTree)
      → Served 17 ((size - 1) / min_block_size + 1) (h.tree) answer
      → Allocated base size h (kalloc_at base ((size - 1) / min_block_size + 1) h answer)
  unfolding kalloc_at
  served (none, _) (full short) = exhausted short
  served (some block, tree) (taken j w run at_ inside sized buddy) =
      let n = (size - 1) / min_block_size + 1 in
      let same = fix_size-round_up n (omega arith) (omega arith) in
      let blocks = heap_blocks in
      let addr = base + block * min_block_size in
      let (e, r, lo, hi) = round_up-pow2 n (omega arith) (omega arith) in
      allocated j run (omega arith) (omega arith) (omega arith) (omega arith)
        (λ i less. clear-at (h.memory) addr (fix_size n * min_block_size) i (omega arith))
        (λ a out. elim out [
          | inl low ↦ clear-below (h.memory) addr (fix_size n * min_block_size) a low
          | inr high ↦ clear-above (h.memory) addr (fix_size n * min_block_size) a (omega arith)
        ])
        (record { sized = sized; buddy = buddy })

  -- `kalloc` keeps its promise in a valid heap, for 1 up to 2 ^ 31 - 1 bytes.
  pub kalloc-Allocated : Allocated base size h (kalloc base size h)
  unfolding kalloc
  kalloc-Allocated =
      let n = (size - 1) / min_block_size + 1 in
      let some_bytes : size == 0 ≡ false = ground arith in
      rw some_bytes (
        served (buddy_alloc (h.tree) n)
          (buddy_alloc-Served 17 (h.tree) n (holds.sized) (holds.buddy) (omega arith)))

buddy_free-size : (t : BuddyTree) (offset : ℕ) → (buddy_free t offset).size ≡ t.size
unfolding buddy_free
buddy_free-size t offset =
    go (find_up (offset + t.size - 1 + 1) (t.longest) (offset + t.size - 1) 1)
  where
    go : (there : Option (ℕ × ℕ)) → (free_at t there).size ≡ t.size
    go none = refl
    go (some (j, s)) = refl

-- `kfree` keeps the heap's invariant whatever pointer it is given.
pub kfree-IsHeap : (base ptr : ℕ) (h : KernelHeap) → IsHeap h → IsHeap (kfree base ptr h)
unfolding kfree
kfree-IsHeap base ptr h holds =
    elim (Bool-cases (ltb ptr base)) as (λ _. IsHeap (kfree base ptr h)) [
      | inl low ↦ rw low holds
      | inr e ↦
          elim (Bool-cases (ltb (base + kernel_heap_size - min_block_size) ptr))
            as (λ _. IsHeap (kfree base ptr h)) [
              | inl high ↦ rw (e, high) holds
              | inr e' ↦
                  let blocks = heap_blocks in
                  rw (e, e')
                    (record {
                      sized =
                          buddy_free-size (h.tree) ((ptr - base) / min_block_size) ∙ holds.sized;
                      buddy =
                          buddy_free-IsBuddy 17 (h.tree) (holds.sized) (holds.buddy)
                            ((ptr - base) / min_block_size) (ground arith);
                    })
            ]
    ]
