-- ===== src/Builder/Blocks.antt =====
-- `getFreeBlock` of mkfs/mksfs.c, and what the image keeps while blocks are taken.
use moonix.Base.{
  ℕ, zero, suc, ◌+◌, ◌-◌, ◌%◌, ◌^◌, ◌≤◌, ◌<◌, ◌≡◌, refl, sym, ap, ◌∙◌, arith, inl, inr, Bool, true,
  false, Bool-cases, Option, none, some, update, update-at, update-other, Returns, returns, ◌==◌,
  if◌then◌else◌, same_or_not,
}
use moonix.Builder.{Builder, block_num, free_from, take, get_free_block}

-- The free blocks among the first `n`.
abbrev pub count_free : (ℕ → Bool) → ℕ → ℕ
count_free freemap zero = 0
count_free freemap (suc n) = (if freemap n then 0 else 1) + count_free freemap n

-- `freenum` counts the free blocks.
abbrev pub IsCounted : Builder → Type 0
IsCounted st = st.freenum ≡ count_free (st.freemap) block_num

-- The lowest block that is free is taken, and nothing else changes.
pub record Takes (st : Builder) (b : ℕ) (st' : Builder) : Type 0 where
  pub bound : b < block_num
  pub was_free : st.freemap b ≡ false
  pub lowest : (n : ℕ) → n < b → st.freemap n ≡ true
  pub taken : st'.freemap ≡ update (st.freemap) b true
  pub image : st'.image ≡ st.image
  pub left : st'.freenum + 1 ≡ st.freenum
  pub counted : IsCounted st'

count_free-le : (freemap : ℕ → Bool) (n : ℕ) → count_free freemap n ≤ n
count_free-le freemap zero = omega arith
count_free-le freemap (suc n) = ground (arith, count_free-le freemap n)

count_free-update-above :
    (freemap : ℕ → Bool) (b n : ℕ)
    → n ≤ b
    → count_free (update freemap b true) n ≡ count_free freemap n
count_free-update-above freemap b zero h = refl
count_free-update-above freemap b (suc n) h =
    let rest = count_free-update-above freemap b n (omega arith) in
    let same = update-other freemap b true n (omega arith) in rw (same, rest) refl

count_free-update :
    (freemap : ℕ → Bool) (b n : ℕ)
    → freemap b ≡ false
    → b < n
    → count_free (update freemap b true) n + 1 ≡ count_free freemap n
count_free-update freemap b zero is_free h = absurd (omega arith)
count_free-update freemap b (suc n) is_free h = elim (same_or_not b n) [
  | inl e ↦
      let at = update-at freemap b true in
      let below = count_free-update-above freemap b n (omega arith) in
      let here : freemap n ≡ false = ap freemap (sym e) ∙ is_free in
      let here' : (if b == n then true else freemap n) ≡ true =
        ap (update freemap b true) (sym e) ∙ at in
      rw (here', here, below) (omega arith)
  | inr other ↦
      let rest = count_free-update freemap b n is_free (omega arith) in
      let same = update-other freemap b true n other in rw same (omega (arith, rest))
]

free_from-none :
    (freemap : ℕ → Bool) (rounds i : ℕ)
    → free_from freemap rounds i ≡ none
    → (n : ℕ) → i ≤ n
    → n < i + rounds
    → freemap n ≡ true
unfolding free_from
free_from-none freemap zero i h n low high = absurd (omega arith)
free_from-none freemap (suc rounds) i h n low high = elim (Bool-cases (freemap i)) [
  | inl is_used ↦ elim (same_or_not i n) [
    | inl e ↦ ap freemap (sym e) ∙ is_used
    | inr other ↦
        free_from-none freemap rounds (i + 1) (rw is_used at h) n (omega arith) (omega arith)
  ]
  | inr is_free ↦ absurd (ground arith)
]

free_from-some :
    (freemap : ℕ → Bool) (rounds i b : ℕ)
    → free_from freemap rounds i ≡ some b
    → (freemap b ≡ false)
      × (i ≤ b)
      × (b < i + rounds)
      × ((n : ℕ) → i ≤ n → n < b → freemap n ≡ true)
unfolding free_from
free_from-some freemap zero i b h = absurd (ground arith)
free_from-some freemap (suc rounds) i b h = elim (Bool-cases (freemap i)) [
  | inl is_used ↦
      let (is_free, low, high, below) = free_from-some freemap rounds (i + 1) b (rw is_used at h) in
      (
        is_free,
        omega arith,
        omega arith,
        λ n l h'. elim (same_or_not i n) [
          | inl e ↦ ap freemap (sym e) ∙ is_used
          | inr other ↦ below n (omega arith) h'
        ],
      )
  | inr is_free ↦
      let e : some i ≡ some b = rw is_free at h in
      let same : i ≡ b = ground arith in
      (ap freemap (sym same) ∙ is_free, omega arith, omega arith, λ n l h'. absurd (omega arith))
]

count_free-none :
    (freemap : ℕ → Bool) (n : ℕ) → ((m : ℕ) → m < n → freemap m ≡ true) → count_free freemap n ≡ 0
count_free-none freemap zero h = refl
count_free-none freemap (suc n) h =
    let here = h n (omega arith) in
    let rest = count_free-none freemap n (λ m l. h m (omega arith)) in rw here (omega (arith, rest))

freenum-wrap : (n : ℕ) → 0 < n → n ≤ 256 → (n + 2 ^ 32 - 1) % 2 ^ 32 + 1 ≡ n
freenum-wrap n low high = omega arith

take-Takes :
    (st : Builder)
    → IsCounted st
    → 0 < st.freenum
    → (found : Option ℕ) → free_from (st.freemap) block_num 0 ≡ found
    → Returns (λ (b, st'). Takes st b st') (take st found)
unfolding take
take-Takes st c some_left none e =
    let full =
      count_free-none (st.freemap) block_num
        (λ m l. free_from-none (st.freemap) block_num 0 e m (omega arith) (omega arith)) in
    absurd (omega arith)
take-Takes st c some_left (some b) e =
    let (is_free, low, high, below) = free_from-some (st.freemap) block_num 0 b e in
    let less = count_free-update (st.freemap) b block_num is_free (omega arith) in
    let total = count_free-le (st.freemap) block_num in
    let left = freenum-wrap (st.freenum) some_left (rw c total) in
    returns (record {
      bound = omega arith;
      was_free = is_free;
      lowest = λ n l. below n (omega arith) l;
      taken = refl;
      image = refl;
      left = left;
      counted = counted (st.freenum) _ _ _ c left less;
    })
  where
    counted : (n m k k' : ℕ) → n ≡ k → m + 1 ≡ n → k' + 1 ≡ k → m ≡ k'
    counted n m k k' e e' e'' = omega arith

-- While `freenum` counts the free blocks and is not 0, `getFreeBlock` returns the lowest
-- free block and marks it; it counts the free blocks still, and nothing else changes.
pub get_free_block-Takes :
    (st : Builder)
    → IsCounted st
    → 0 < st.freenum
    → Returns (λ (b, st'). Takes st b st') (get_free_block st)
unfolding get_free_block
get_free_block-Takes st c some_left =
    take-Takes st c some_left (free_from (st.freemap) block_num 0) refl
