-- ===== src/Frames/Pages.antt =====
-- `alloc` and `dealloc` in terms of the pages, whatever the tree above them looks like.
use moonix.Base.{
  ℕ, zero, suc, ◌+◌, ◌-◌, ◌*◌, ◌/◌, ◌%◌, ◌^◌, ◌≤◌, ◌<◌, ◌≡◌, ◌≢◌, refl, update, arith, ap, ◌∙◌, sym,
  inl, inr, ok, panic, Returns, Returns-ok, Returns-mono, Returns-inv, ◌↔◌, ◌⊎◌,
}
use native.Mathlib.Decide.{ℕ_discrete}
use mathlib.Core.Path.{subst}
use moonix.Frames.{Sta, descend, climb, alloc, dealloc, sub64}
use moonix.Frames.Tree.{IsTree, bit_and_bits, descend-Leaf, climb-IsTree}

pub record IsValid (s : Sta) : Type 0 where
  pub tree : IsTree s.node s.first_single 0
  pub positive : 1 < s.first_single
  pub fits : s.start_ppn + s.first_single * 2 < 2 ^ 64

-- 0 if page `ppn` is free, 1 if it is taken.
abbrev pub page : Sta → ℕ → ℕ
page s ppn = s.node (ppn - s.start_ppn + s.first_single)

-- The page numbers that the tree has a node for.
abbrev pub IsPage : Sta → ℕ → Type 0
IsPage s ppn = (s.start_ppn ≤ ppn) × (ppn < s.start_ppn + s.first_single)

-- `s'` is `s` with page `ppn` set to `v` and no other page changed.
pub record Sets (s : Sta) (ppn v : ℕ) (s' : Sta) : Type 0 where
  pub valid : IsValid s'
  pub same_range : (s'.first_single ≡ s.first_single) × (s'.start_ppn ≡ s.start_ppn)
  pub now : page s' ppn ≡ v
  pub others : (r : ℕ) → IsPage s r → r ≢ ppn → page s' r ≡ page s r

-- A write to a page, followed by the way up.
mark : Sta → ℕ → ℕ → Sta
mark s p v = record s { node = climb (p / 2) (update s.node p v) (p / 2) }

mark-Sets :
    (s : Sta) (ppn v : ℕ)
    → IsValid s
    → IsPage s ppn
    → v ≤ 1
    → Sets s ppn v (mark s (ppn - s.start_ppn + s.first_single) v)
unfolding mark
mark-Sets s ppn v h range bit =
    let p = ppn - s.start_ppn + s.first_single in
    let fits = h.positive in
    let gap : IsTree (update s.node p v) s.first_single (p / 2) = record {
      bits = λ i b. ground (arith, h.tree.bits i);
      edges = λ i b c ne. ground (arith, h.tree.edges i b c);
    } in
    let (tree, kept) =
      climb-IsTree (p / 2) (update s.node p v) s.first_single (p / 2) gap (omega arith)
        (omega arith) in
    record {
      valid = record { tree = tree; positive = h.positive; fits = h.fits };
      same_range = (refl, refl);
      now = ground (arith, kept p);
      others = λ r q ne. ground (arith, kept (r - s.start_ppn + s.first_single));
    }

alloc-eq :
    (s : Sta) (p r : ℕ)
    → s.node 1 ≡ 0
    → descend s.first_single s.node s.first_single 1 ≡ p
    → (sub64 p s.first_single + s.start_ppn) % 2 ^ 64 ≡ r
    → alloc s ≡ ok (r, mark s p 1)
unfolding alloc mark
alloc-eq s p r root e number = rw (root, e, number)

-- With a free page left `alloc` gives one of them, marks it taken and changes no other page.
pub alloc-Sets :
    (s : Sta)
    → IsValid s
    → s.node 1 ≡ 0
    → Returns (λ (r, s'). IsPage s r × (page s r ≡ 0) × Sets s r 1 s') (alloc s)
alloc-Sets s h root =
    let p = descend s.first_single s.node s.first_single 1 in
    let (lo, hi, free) =
      descend-Leaf s.first_single s.node s.first_single 1 h.tree (omega arith)
        (omega (arith, h.positive)) root (omega arith) in
    let r = p - s.first_single + s.start_ppn in
    let back : r - s.start_ppn + s.first_single ≡ p = omega arith in
    let number : (sub64 p s.first_single + s.start_ppn) % 2 ^ 64 ≡ r = omega (arith, h.fits) in
    let range : IsPage s r = (omega arith, omega arith) in
    Returns-ok (alloc-eq s p r root refl number) (
      range,
      ap s.node back ∙ free,
      subst (λ k. Sets s r 1 (mark s k 1)) back (mark-Sets s r 1 h range (omega arith)),
    )

half_cases : (i : ℕ) → (i ≡ i / 2 * 2) ⊎ (i ≡ i / 2 * 2 + 1)
half_cases i = grind arith

all_taken :
    (fuel : ℕ) (s : Sta) (i : ℕ)
    → IsValid s
    → s.node 1 ≡ 1
    → 0 < i
    → i < s.first_single * 2
    → i ≤ fuel
    → s.node i ≡ 1
all_taken zero s i h root pos bound enough = absurd (omega arith)
all_taken (suc fuel) s zero h root pos bound enough = absurd (omega arith)
all_taken (suc fuel) s (suc zero) h root pos bound enough = root
all_taken (suc fuel) s (suc (suc n)) h root pos bound enough =
    let i = suc (suc n) in
    let parent = all_taken fuel s (i / 2) h root (omega arith) (omega arith) (omega arith) in
    let edge = h.tree.edges (i / 2) (omega arith) (omega arith) (omega arith) in
    let both =
      (bit_and_bits (s.node (i / 2 * 2)) (s.node (i / 2 * 2 + 1)) (h.tree.bits _ (omega arith))
          (h.tree.bits _ (omega arith))).2
        (sym edge ∙ parent) in
    elim (half_cases i) [ inl e ↦ ap s.node e ∙ both.0 | inr e ↦ ap s.node e ∙ both.1 ]

alloc-eq_full : (s : Sta) → s.node 1 ≡ 1 → alloc s ≡ panic
unfolding alloc
alloc-eq_full s e = rw e

bit_cases : (a : ℕ) → a ≤ 1 → (a ≡ 0) ⊎ (a ≡ 1)
bit_cases zero h = inl refl
bit_cases (suc zero) h = inr refl
bit_cases (suc (suc a)) h = absurd (omega arith)

-- `alloc` panics exactly if no page is free.
pub alloc-panic : (s : Sta) → IsValid s → (alloc s ≡ panic) ↔ ((r : ℕ) → IsPage s r → page s r ≡ 1)
alloc-panic s h = elim (bit_cases (s.node 1) (h.tree.bits 1 (omega (arith, h.positive)))) [
  | inl left ↦
      let (got, run, at) = Returns-inv (alloc-Sets s h left) in
      (
        λ e. absurd (let no : panic ≡ ok got = sym e ∙ run in cc),
        λ all. absurd (omega (arith, all got.0 at.0, at.1)),
      )
  | inr full ↦ (
    λ e r range.
        all_taken (s.first_single * 2) s (r - s.start_ppn + s.first_single) h full
          (omega (arith, h.positive)) (omega arith) (omega arith),
    λ all. alloc-eq_full s full,
  )
]

number_of :
    (s : Sta) (ppn : ℕ)
    → IsValid s
    → IsPage s ppn
    → (sub64 ppn s.start_ppn + s.first_single) % 2 ^ 64 ≡ ppn - s.start_ppn + s.first_single
number_of s ppn h range = omega (arith, h.fits)

dealloc-eq :
    (s : Sta) (ppn : ℕ)
    → (sub64 ppn s.start_ppn + s.first_single) % 2 ^ 64 ≡ ppn - s.start_ppn + s.first_single
    → page s ppn ≡ 1
    → dealloc s ppn ≡ mark s (ppn - s.start_ppn + s.first_single) 0
unfolding dealloc mark
dealloc-eq s ppn e taken = rw (e, taken)

dealloc-eq_free :
    (s : Sta) (ppn : ℕ)
    → (sub64 ppn s.start_ppn + s.first_single) % 2 ^ 64 ≡ ppn - s.start_ppn + s.first_single
    → page s ppn ≡ 0
    → dealloc s ppn ≡ s
unfolding dealloc mark
dealloc-eq_free s ppn e free = rw (e, free)

-- `dealloc` of a taken page frees it and changes no other page.
pub dealloc-Sets :
    (s : Sta) (ppn : ℕ) → IsValid s → IsPage s ppn → page s ppn ≡ 1 → Sets s ppn 0 (dealloc s ppn)
dealloc-Sets s ppn h range taken =
    rw (dealloc-eq s ppn (number_of s ppn h range) taken) (mark-Sets s ppn 0 h range (omega arith))

-- `dealloc` of a free page changes nothing.
pub dealloc_free :
    (s : Sta) (ppn : ℕ) → IsValid s → IsPage s ppn → page s ppn ≡ 0 → dealloc s ppn ≡ s
dealloc_free s ppn h range free = dealloc-eq_free s ppn (number_of s ppn h range) free

-- Taking a free page and giving it back leaves every page as it was.
pub Sets-restore :
    (s t u : Sta) (r : ℕ)
    → IsPage s r
    → page s r ≡ 0
    → Sets s r 1 t
    → Sets t r 0 u
    → (i : ℕ) → IsPage s i
    → page u i ≡ page s i
Sets-restore s t u r range free taken freed i at = elim (ℕ_discrete i r) [
  | yes e ↦ ap (page u) e ∙ freed.now ∙ sym free ∙ sym (ap (page s) e)
  | no ne ↦ freed.others i (ground (arith, taken.same_range)) ne ∙ taken.others i at ne
]

-- Giving back the page that `alloc` gave leaves every page as it was.
pub dealloc-alloc :
    (s : Sta)
    → IsValid s
    → s.node 1 ≡ 0
    → Returns (λ (r, s'). (i : ℕ) → IsPage s i → page (dealloc s' r) i ≡ page s i) (alloc s)
dealloc-alloc s h root = Returns-mono (alloc-Sets s h root) λ (r, s') (range, free, sets).
    let range' : IsPage s' r = ground (arith, sets.same_range) in
    let freed = dealloc-Sets s' r sets.valid range' sets.now in
    Sets-restore s s' (dealloc s' r) r range free sets freed
