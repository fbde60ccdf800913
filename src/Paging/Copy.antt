-- ===== src/Paging/Copy.antt =====
-- What a page of a program holds after `mapFramedAndCopy` (kernel/mapping.c) has filled it.
use moonix.Base.{
  ℕ, zero, suc, ◌+◌, ◌-◌, ◌≤◌, ◌<◌, ◌≡◌, refl, arith, ap, ◌∙◌, ◌⊎◌, inl, inr, true, false,
  Bool-cases, ltb, leb, if◌then◌else◌,
}
use moonix.Frames.{page_size}
use moonix.Paging.Segments.{copy, clear_from, fill_page}

copy-outside :
    (memory : ℕ → ℕ) (dst src n a : ℕ)
    → (a < dst) ⊎ (dst + n ≤ a)
    → copy memory dst src n a ≡ memory a
unfolding copy
copy-outside memory dst src zero a out = refl
copy-outside memory dst src (suc n) a out =
    ground (arith, copy-outside memory dst src n a (omega arith))

-- The bytes of a source that does not overlap.
copy-at :
    (memory : ℕ → ℕ) (dst src n i : ℕ)
    → (src + n ≤ dst) ⊎ (dst + n ≤ src)
    → i < n
    → copy memory dst src n (dst + i) ≡ memory (src + i)
unfolding copy
copy-at memory dst src zero i apart h = absurd (omega arith)
copy-at memory dst src (suc n) i apart h =
    let last : (i < n) ⊎ (i ≡ n) = omega arith in
    elim last [
      | inl less ↦ ground (arith, copy-at memory dst src n i (omega arith) less)
      | inr e ↦ let kept = copy-outside memory dst src n (src + n) (omega arith) in ground arith
    ]

clear_from-outside :
    (memory : ℕ → ℕ) (dst from n a : ℕ)
    → (a < dst + from) ⊎ (dst + (from + n) ≤ a)
    → clear_from memory dst from n a ≡ memory a
unfolding clear_from
clear_from-outside memory dst from zero a out = refl
clear_from-outside memory dst from (suc n) a out =
    ground (arith, clear_from-outside memory dst from n a (omega arith))

clear_from-at :
    (memory : ℕ → ℕ) (dst from n i : ℕ)
    → from ≤ i
    → i < from + n
    → clear_from memory dst from n (dst + i) ≡ 0
unfolding clear_from
clear_from-at memory dst from zero i low high = absurd (omega arith)
clear_from-at memory dst from (suc n) i low high =
    let last : (i < from + n) ⊎ (i ≡ from + n) = omega arith in
    elim last [
      | inl less ↦ ground (arith, clear_from-at memory dst from n i low less)
      | inr e ↦ ground arith
    ]

module _ (memory : ℕ → ℕ) (dst s l : ℕ) where
  fill_page-full : leb page_size l ≡ true → fill_page memory dst s l ≡ copy memory dst s page_size
  unfolding fill_page
  fill_page-full e =
      ap
        (λ b.
          if b
          then copy memory dst s page_size
          else clear_from (copy memory dst s l) dst l (page_size - l))
        e

  fill_page-part :
      leb page_size l ≡ false
      → fill_page memory dst s l ≡ clear_from (copy memory dst s l) dst l (page_size - l)
  unfolding fill_page
  fill_page-part e =
      ap
        (λ b.
          if b
          then copy memory dst s page_size
          else clear_from (copy memory dst s l) dst l (page_size - l))
        e

inside : (l i v : ℕ) → i < l → v ≡ (if ltb i l then v else 0)
inside l i v h = ground arith

beyond : (l i v : ℕ) → l ≤ i → 0 ≡ (if ltb i l then v else 0)
beyond l i v h = ground arith

-- A page that does not overlap the data gets the next bytes of it, and zeros behind their end;
-- the rest of memory is as before.
pub fill_page-lem :
    (memory : ℕ → ℕ) (dst s l : ℕ)
    → (s + page_size ≤ dst) ⊎ (dst + page_size ≤ s)
    → ((i : ℕ)
        → i < page_size
        → fill_page memory dst s l (dst + i) ≡ (if ltb i l then memory (s + i) else 0))
      × ((a : ℕ) → (a < dst) ⊎ (dst + page_size ≤ a) → fill_page memory dst s l a ≡ memory a)
fill_page-lem memory dst s l apart = elim (Bool-cases (leb page_size l)) [
  | inl full ↦
      let e = fill_page-full memory dst s l full in
      (
        λ i h.
            ap (λ f. f (dst + i)) e
            ∙ copy-at memory dst s page_size i apart h
            ∙ inside l i (memory (s + i)) (ground arith),
        λ a out. ap (λ f. f a) e ∙ copy-outside memory dst s page_size a out,
      )
  | inr part ↦
      let e = fill_page-part memory dst s l part in
      let short : l < page_size = ground arith in
      (
        λ i h. ap (λ f. f (dst + i)) e ∙ elim (Bool-cases (ltb i l)) [
          | inl less ↦
              clear_from-outside (copy memory dst s l) dst l (page_size - l) (dst + i)
                (ground arith)
              ∙ copy-at memory dst s l i (omega arith) (ground arith)
              ∙ inside l i (memory (s + i)) (ground arith)
          | inr more ↦
              clear_from-at (copy memory dst s l) dst l (page_size - l) i (ground arith)
                (omega arith)
              ∙ beyond l i (memory (s + i)) (ground arith)
        ],
        λ a out.
            ap (λ f. f a) e
            ∙ clear_from-outside (copy memory dst s l) dst l (page_size - l) a (omega arith)
            ∙ copy-outside memory dst s l a (omega arith),
      )
]
