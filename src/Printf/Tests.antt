-- ===== src/Printf/Tests.antt =====
-- Numbers and a format at concrete values.
use moonix.Base.{
  ℕ, ◌+◌, ◌-◌, ◌^◌, ◌≤◌, ◌<◌, ◌≡◌, refl, arith, ◌⊎◌, true, false, List, [], ◌∷◌, length, ok,
  Returns, ◌==◌, if◌then◌else◌,
}
use moonix.Printf.{printint, printptr}
use moonix.Printf.Format.{printf}
use moonix.Printf.Numbers.{value, printint-value, printptr-value}

-- "-42"
minus_42 : printint (2 ^ 32 - 42) 10 true ≡ ok (45 ∷ 52 ∷ 50 ∷ [])
unfolding printint
minus_42 = refl

-- "a%d%%" with 7 is "a7%".
abbrev a_number : ℕ → ℕ
a_number p =
    if p == 8
    then 97
    else if p == 9
    then 37
    else if p == 10
    then 100
    else if p == 11
    then 37
    else if p == 12
    then 37
    else 0

formatted : printf 8 a_number 8 (λ n. 7) ≡ ok (97 ∷ 55 ∷ 37 ∷ [])
unfolding printf printint
formatted = refl

printint-value_example :
    Returns
      (λ out.
        ((4294967254 < 2 ^ 31) ⊎ (true ≡ false) → value 10 0 out ≡ 4294967254)
        × (2 ^ 31 ≤ 4294967254
            → true ≡ true
            → (digits : List ℕ) × (out ≡ 45 ∷ digits) × (value 10 0 digits + 4294967254 ≡ 2 ^ 32)))
      (printint 4294967254 10 true)
printint-value_example = printint-value 4294967254 10 true (omega arith) (omega arith) (omega arith)

printptr-value_example :
    (digits : List ℕ) × (printptr 0x8020_0000 ≡ 48 ∷ 120 ∷ digits)
    × (length digits ≡ 16)
    × (value 16 0 digits ≡ 0x8020_0000)
printptr-value_example = printptr-value 0x8020_0000 (omega arith)
