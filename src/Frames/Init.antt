-- ===== src/Frames/Init.antt =====
-- `newAllocator`: which pages are free at the start.
use Prim.Native.Nat.{bit_and}
use moonix.Base.{
  ℕ, zero, suc, ◌+◌, ◌-◌, ◌*◌, ◌^◌, ◌≤◌, ◌<◌, ◌≡◌, refl, update, arith, ltb, leb, ap, ◌∙◌,
  Bool-cases, false, inl, inr, ◌&&◌, if◌then◌else◌,
}
use moonix.Heap.Bits.{pow2, pow2-pos}
use moonix.Frames.{Sta, grow, fill, join, build, new_allocator, sub64}
use moonix.Frames.Tree.{IsTree, bit_and_bits, join_at}
use moonix.Frames.Pages.{IsValid, page, IsPage}

-- The loop of `firstSingle` ends by its test, below twice the bound.
grow_bounds :
    (fuel fs length : ℕ)
    → 0 < fs
    → length + 2 ≤ fs + fuel
    → fs < (length + 2) * 2
    → (length + 2 ≤ grow fuel fs length) × (grow fuel fs length < (length + 2) * 2)
unfolding grow
grow_bounds zero fs length pos enough small = (omega arith, small)
grow_bounds (suc fuel) fs length pos enough small = elim (Bool-cases (ltb fs (length + 2))) [
  | inl more ↦
      rw more (grow_bounds fuel (fs * 2) length (omega arith) (ground arith) (ground arith))
  | inr done ↦ rw done (ground arith, small)
]

fits_below : (a b : ℕ) → 0 < b → a * b ≡ 0x8000 → a ≤ 0x8000
fits_below a b pos e = grind arith

array_size : 1 * pow2 15 ≡ 0x8000
unfolding pow2
array_size = refl

-- A power of two that starts below 2 ^ 15 does not pass it.
grow_fits :
    (m fuel fs length : ℕ)
    → fs * pow2 m ≡ 0x8000
    → length + 2 ≤ 0x8000
    → grow fuel fs length ≤ 0x8000
unfolding grow pow2
grow_fits zero zero fs length whole small = omega arith
grow_fits zero (suc fuel) fs length whole small =
    let full : fs ≡ 0x8000 = omega arith in
    let done : ltb fs (length + 2) ≡ false = ground arith in rw done (omega arith)
grow_fits (suc m) zero fs length whole small =
    fits_below fs (pow2 m * 2) (omega (arith, pow2-pos m)) whole
grow_fits (suc m) (suc fuel) fs length whole small =
    let whole' : fs * 2 * pow2 m ≡ 0x8000 = grind arith in
    elim (Bool-cases (ltb fs (length + 2))) [
      | inl more ↦ rw more (grow_fits m fuel (fs * 2) length whole' small)
      | inr done ↦ rw done (fits_below fs (pow2 m * 2) (omega (arith, pow2-pos m)) whole)
    ]

pub fill_at :
    (node : ℕ → ℕ) (rounds lo v i : ℕ)
    → fill node rounds lo v i ≡ (if leb lo i && ltb i (lo + rounds) then v else node i)
unfolding fill
fill_at node zero lo v i = ground arith
fill_at node (suc rounds) lo v i = ground (arith, fill_at (update node lo v) rounds (lo + 1) v i)

-- `build` from node `top` down makes a tree of what was one above `top`.
record IsBuilt (node : ℕ → ℕ) (fs top : ℕ) : Type 0 where
  bits : (i : ℕ) → i < fs * 2 → node i ≤ 1
  edges : (i : ℕ) → top < i → i < fs → node i ≡ bit_and (node (i * 2)) (node (i * 2 + 1))

join-IsBuilt :
    (node : ℕ → ℕ) (fs top : ℕ)
    → IsBuilt node fs (suc top)
    → suc top < fs
    → IsBuilt (join node (suc top)) fs top
unfolding join
join-IsBuilt node fs top t inner =
    let joined =
      bit_and_bits (node (suc top * 2)) (node (suc top * 2 + 1)) (t.bits _ (omega arith))
        (t.bits _ (omega arith)) in
    record { bits = λ i b. ground (arith, t.bits i); edges = λ i b c. ground (arith, t.edges i) }

build-IsTree :
    (node : ℕ → ℕ) (fs top : ℕ)
    → IsBuilt node fs top
    → top < fs
    → IsTree (build node top) fs 0 × ((i : ℕ) → top < i → build node top i ≡ node i)
unfolding build
build-IsTree node fs zero t inner =
    (record { bits = t.bits; edges = λ i b c ne. t.edges i b c }, λ i b. refl)
build-IsTree node fs (suc top) t inner =
    let (tree, kept) =
      build-IsTree (join node (suc top)) fs top (join-IsBuilt node fs top t inner) (omega arith) in
    (tree, λ i b. kept i (omega arith) ∙ join_at node (suc top) i b)

module _ (start_ppn end_ppn : ℕ) (pos : 0 < start_ppn) (order : start_ppn < end_ppn)
    (small : end_ppn < 2 ^ 60) (few : end_ppn - start_ppn < 0x7fff) where
  abbrev count : ℕ
  count = sub64 end_ppn start_ppn

  abbrev fs : ℕ
  fs = grow (count + 2) 1 count

  abbrev leaves : ℕ → ℕ
  leaves = fill (fill (λ _. 0) (fs * 2 - 1) 1 1) (count - 1) (fs + 1) 0

  -- What `newAllocator` makes: a valid tree in which the pages from `start_ppn` up to, and
  -- without, `end_ppn - 1` are free.
  pub record Starts (s : Sta) : Type 0 where
    pub valid : IsValid s
    pub base : s.start_ppn + 1 ≡ start_ppn
    pub in_array : s.first_single * 2 ≤ 0x1_0000
    pub room : end_ppn < s.start_ppn + s.first_single
    pub free : (r : ℕ) → start_ppn ≤ r → r + 1 < end_ppn → page s r ≡ 0
    pub taken : (r : ℕ) → IsPage s r → r < start_ppn → page s r ≡ 1
    pub last : (r : ℕ) → IsPage s r → end_ppn ≤ r + 1 → page s r ≡ 1

  leaves_at :
      (i : ℕ)
      → leaves i ≡ (
          if leb (fs + 1) i && ltb i (fs + 1 + (count - 1))
          then 0
          else if leb 1 i && ltb i (1 + (fs * 2 - 1))
          then 1
          else 0)
  leaves_at i =
      fill_at (fill (λ _. 0) (fs * 2 - 1) 1 1) (count - 1) (fs + 1) 0 i
      ∙ ap (λ (k : ℕ). if leb (fs + 1) i && ltb i (fs + 1 + (count - 1)) then 0 else k)
          (fill_at (λ _. 0) (fs * 2 - 1) 1 1 i)

  leaves-IsBuilt : IsBuilt leaves fs (fs - 1)
  leaves-IsBuilt = record {
    bits = λ i b. ground (arith, leaves_at i);
    edges = λ i b c. absurd (omega arith);
  }

  -- For 0 < `startPpn` < `endPpn` < 2 ^ 60 that are less than 0x7fff apart, `newAllocator` makes a
  -- valid tree, which fits the 0x10000 nodes of the array, and in which exactly the pages from
  -- `startPpn` up to `endPpn - 2` are free.
  pub new_allocator-Starts : Starts (new_allocator start_ppn end_ppn)
  unfolding new_allocator
  new_allocator-Starts =
      let size : count ≡ end_ppn - start_ppn = omega arith in
      let (lo, hi) = grow_bounds (count + 2) 1 count (omega arith) (omega arith) (omega arith) in
      let (tree, kept) = build-IsTree leaves fs (fs - 1) leaves-IsBuilt (omega arith) in
      record {
        valid = record { tree = tree; positive = omega arith; fits = omega arith };
        base = omega arith;
        in_array = omega (arith, grow_fits 15 (count + 2) 1 count array_size (omega arith));
        room = omega arith;
        free = λ r p q.
            ground
              (arith, kept (r - sub64 start_ppn 1 + fs), leaves_at (r - sub64 start_ppn 1 + fs));
        taken = λ r p q.
            ground
              (arith, kept (r - sub64 start_ppn 1 + fs), leaves_at (r - sub64 start_ppn 1 + fs));
        last = λ r p q.
            ground
              (arith, kept (r - sub64 start_ppn 1 + fs), leaves_at (r - sub64 start_ppn 1 + fs));
      }
