-- ===== src/Strings/Compare.antt =====
-- `strlen` and `strcmp` of kernel/string.c in terms of the lists of bytes that lie in memory.
use mathlib.Core.Path.{subst}
use moonix.Base.{
  ℕ, zero, suc, ◌+◌, ◌<◌, ◌≡◌, ◌≢◌, refl, ap, ◌∙◌, arith, inl, inr, ◌↔◌, true, false, List, [], ◌∷◌,
  length, ok, ◌==◌, same_or_not, Returns, Returns-ok,
}
use moonix.Strings.{count, strlen, differ, strcmp}

-- The bytes of `s`, none of them 0, lie from `str` on, and a 0 behind them.
pub data IsString (memory : ℕ → ℕ) : ℕ → List ℕ → Type 0 where
  stop : {str : ℕ} → memory str ≡ 0 → IsString memory str []
  char :
      {str c : ℕ} {s : List ℕ}
      → memory str ≡ c
      → c ≢ 0
      → IsString memory (str + 1) s
      → IsString memory str (c ∷ s)

count-lem :
    (fuel : ℕ) (memory : ℕ → ℕ) (str num : ℕ) (s : List ℕ)
    → IsString memory str s
    → length s < fuel
    → count fuel memory str num ≡ ok (num + length s)
unfolding count
count-lem zero memory str num s h b = absurd (omega arith)
count-lem (suc fuel) memory str num [] (stop e) b =
    let ends : memory str == 0 ≡ true = ground arith in
    let none : num + 0 ≡ num = omega arith in rw (ends, none) refl
count-lem (suc fuel) memory str num (c ∷ s) (char e n h) b =
    let goes_on : memory str == 0 ≡ false = ground arith in
    let sum : num + 1 + length s ≡ num + suc (length s) = omega arith in
    rw goes_on (count-lem fuel memory (str + 1) (num + 1) s h (omega arith) ∙ ap ok sum)

-- `strlen` of a string is its length, with fuel for one byte more than it has.
pub strlen-length :
    (fuel : ℕ) (memory : ℕ → ℕ) (str : ℕ) (s : List ℕ)
    → IsString memory str s
    → length s < fuel
    → strlen fuel memory str ≡ ok (length s)
unfolding strlen
strlen-length fuel memory str s h b =
    let sum : 0 + length s ≡ length s = omega arith in count-lem fuel memory str 0 s h b ∙ ap ok sum

-- Two strings of the same length do not differ exactly if they are equal.
differ-lem :
    (memory : ℕ → ℕ) (a b i : ℕ) (s t : List ℕ)
    → IsString memory (a + i) s
    → IsString memory (b + i) t
    → length s ≡ length t
    → (differ memory a b (length s) i ≡ 0) ↔ (s ≡ t)
unfolding differ
differ-lem memory a b i [] [] h k e = (λ z. refl, λ z. refl)
differ-lem memory a b i [] (d ∷ t) h k e = absurd (omega arith)
differ-lem memory a b i (c ∷ s) [] h k e = absurd (omega arith)
differ-lem memory a b i (c ∷ s) (d ∷ t) (char p n h) (char q m k) e =
    let next : a + i + 1 ≡ a + (i + 1) = omega arith in
    let next' : b + i + 1 ≡ b + (i + 1) = omega arith in
    let (to, from) =
      differ-lem memory a b (i + 1) s t (subst (λ z. IsString memory z s) next h)
        (subst (λ z. IsString memory z t) next' k) (omega arith) in
    elim (same_or_not c d) [
      | inl same ↦
          let equal : memory (a + i) == memory (b + i) ≡ true = ground arith in
          rw equal (λ z. cc (same, to z), λ z. from (cc z))
      | inr other ↦
          let differs : memory (a + i) == memory (b + i) ≡ false = ground arith in
          rw differs (λ z. absurd (omega arith), λ z. absurd (other (cc z)))
    ]

-- `strcmp` gives 0 exactly for equal strings.
pub strcmp-equal :
    (fuel : ℕ) (memory : ℕ → ℕ) (a b : ℕ) (s t : List ℕ)
    → IsString memory a s
    → IsString memory b t
    → length s < fuel
    → length t < fuel
    → Returns (λ r. (r ≡ 0) ↔ (s ≡ t)) (strcmp fuel memory a b)
unfolding strcmp
strcmp-equal fuel memory a b s t h k p q =
    let start : a ≡ a + 0 = omega arith in
    let start' : b ≡ b + 0 = omega arith in
    rw (strlen-length fuel memory a s h p, strlen-length fuel memory b t k q)
      (elim (same_or_not (length s) (length t)) [
        | inl e ↦
            let equal : length s == length t ≡ true = ground arith in
            rw equal (
              Returns-ok refl (
                differ-lem memory a b 0 s t (subst (λ z. IsString memory z s) start h)
                  (subst (λ z. IsString memory z t) start' k) e))
        | inr n ↦
            let unequal : length s == length t ≡ false = ground arith in
            rw unequal (Returns-ok refl (λ z. absurd (omega arith), λ z. absurd (n (ap length z))))
      ])
