-- ===== src/Context/Layout.antt =====
-- Words in memory, as kernel/thread.c and the two .asm files store and load contexts.
use mathlib.Core.Path.{subst}
use moonix.Base.{
  ℕ, zero, suc, ◌+◌, ◌*◌, ◌/◌, ◌%◌, ◌^◌, ◌≤◌, ◌<◌, ◌≡◌, refl, ◌∙◌, arith, ◌⊎◌, inl, inr, update,
  update-other, same_or_not,
}
use moonix.Paging.{load, store}
use moonix.Paging.Words.{load-store}
use moonix.Context.{store_words, word}

-- The `n` bytes at `a` and the `m` at `b` do not meet.
abbrev pub AreApart : ℕ → ℕ → ℕ → ℕ → Type 0
AreApart a n b m = (a + n ≤ b) ⊎ (b + m ≤ a)

pub apart-inside : (a n b m c k : ℕ) → AreApart a n b m → b ≤ c → c + k ≤ b + m → AreApart a n c k
apart-inside a n b m c k h low high = omega arith

-- The byte is not among the `n` at `a`.
abbrev pub IsOutside : ℕ → ℕ → ℕ → Type 0
IsOutside p a n = (p < a) ⊎ (a + n ≤ p)

pub store-outside :
    (memory : ℕ → ℕ) (a n v p : ℕ) → IsOutside p a n → store memory a n v p ≡ memory p
unfolding store
store-outside memory a zero v p out = refl
store-outside memory a (suc n) v p out =
    store-outside (update memory a (v % 256)) (a + 1) n (v / 256) p (omega arith)
    ∙ update-other memory a (v % 256) p (omega arith)

pub load-same :
    (memory memory' : ℕ → ℕ) (a n : ℕ)
    → ((p : ℕ) → a ≤ p → p < a + n → memory' p ≡ memory p)
    → load memory' a n ≡ load memory a n
unfolding load
load-same memory memory' a zero h = refl
load-same memory memory' a (suc n) h =
    let first = h a (omega arith) (omega arith) in
    let rest = load-same memory memory' (a + 1) n (λ p low high. h p (omega arith) (omega arith)) in
    rw (first, rest) refl

pub store_words-outside :
    (memory : ℕ → ℕ) (a n : ℕ) (w : ℕ → ℕ) (p : ℕ)
    → IsOutside p a (8 * n)
    → store_words memory a n w p ≡ memory p
unfolding store_words
store_words-outside memory a zero w p out = refl
store_words-outside memory a (suc n) w p out =
    store-outside (store_words memory a n w) (a + 8 * n) 8 (w n) p (omega arith)
    ∙ store_words-outside memory a n w p (omega arith)

-- Each word is read as it was stored.
pub word-store_words :
    (memory : ℕ → ℕ) (a n : ℕ) (w : ℕ → ℕ) (i : ℕ)
    → i < n
    → w i < 2 ^ 64
    → word (store_words memory a n w) (a + 8 * i) ≡ w i
unfolding store_words
word-store_words memory a zero w i h fits = absurd (omega arith)
word-store_words memory a (suc n) w i h fits = elim (same_or_not i n) [
  | inl e ↦
      rw e (
        load-store (store_words memory a n w) (a + 8 * n) 8 (w n)
          (subst (λ j. w j < 2 ^ 64) e fits))
  | inr other ↦
      load-same (store_words memory a n w) _ (a + 8 * i) 8
        (λ p low high. store-outside (store_words memory a n w) (a + 8 * n) 8 (w n) p (omega arith))
      ∙ word-store_words memory a n w i (omega arith) fits
]

-- A word that does not meet the stored ones is as it was.
pub word-outside :
    (memory : ℕ → ℕ) (a n : ℕ) (w : ℕ → ℕ) (b : ℕ)
    → (b + 8 ≤ a) ⊎ (a + 8 * n ≤ b)
    → word (store_words memory a n w) b ≡ word memory b
word-outside memory a n w b out =
    load-same memory _ b 8 (λ p low high. store_words-outside memory a n w p (omega arith))

pub word-store : (memory : ℕ → ℕ) (a v : ℕ) → v < 2 ^ 64 → word (store memory a 8 v) a ≡ v
word-store memory a v h = load-store memory a 8 v h

pub word-store-outside :
    (memory : ℕ → ℕ) (a v b : ℕ)
    → (b + 8 ≤ a) ⊎ (a + 8 ≤ b)
    → word (store memory a 8 v) b ≡ word memory b
word-store-outside memory a v b out =
    load-same memory _ b 8 (λ p low high. store-outside memory a 8 v p (omega arith))
