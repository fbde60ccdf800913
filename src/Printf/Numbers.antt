-- ===== src/Printf/Numbers.antt =====
-- The numbers that kernel/printf.c writes are read back as they were.
use mathlib.Core.Path.{subst}
use native.Mathlib.Nat.{pow-suc, mod-lt, div-add-mod'}
use moonix.Base.{
  ℕ, zero, suc, ◌+◌, ◌-◌, ◌*◌, ◌/◌, ◌%◌, ◌^◌, ◌≤◌, ◌<◌, ◌≡◌, ◌≢◌, refl, sym, ap, ◌∙◌, arith, ◌⊎◌,
  inl, inr, Bool, true, false, Bool-cases, ◌&&◌, List, [], ◌∷◌, ◌++◌, length, Run, ltb, leb, ◌==◌,
  if◌then◌else◌, Returns, Returns-ok, Returns-bind, same_or_not,
}
use moonix.Printf.{digit, fill_buf, put_back, printint, put_nibbles, printptr}

-- The number that a digit stands for.
unfoldable pub digit_value : ℕ → ℕ
digit_value c = if ltb c 58 then c - 48 else c - 87

-- The number that the digits stand for, the first one the highest.
unfoldable pub value : ℕ → ℕ → List ℕ → ℕ
unfolding digit_value
value base high [] = high
value base high (c ∷ cs) = value base (high * base + digit_value c) cs

pub digit_value-digit : (d : ℕ) → d < 16 → digit_value (digit d) ≡ d
unfolding digit_value digit
digit_value-digit d h = ground arith

value-append :
    (base high c : ℕ) (cs : List ℕ)
    → value base high (cs ++ c ∷ []) ≡ value base high cs * base + digit_value c
unfolding value
value-append base high c [] = refl
value-append base high c (d ∷ cs) = value-append base (high * base + digit_value d) c cs

div_mod : (x b : ℕ) → 0 < b → (x ≡ x / b * b + x % b) × (x % b < b)
div_mod x b h = (sym (div-add-mod' x b), mod-lt x h)

half_at_most : (q b r x : ℕ) → 2 ≤ b → x ≡ q * b + r → q * 2 ≤ x
half_at_most q b r x h e = grind arith

-- What the buffer holds stands for the number.
abbrev Buffers : ℕ → ℕ → Run (List ℕ) → Type 0
Buffers base x = Returns (λ buf. value base 0 (put_back buf) ≡ x)

one_digit :
    (fuel base x : ℕ)
    → 2 ≤ base
    → base ≤ 16
    → x / base ≡ 0
    → Buffers base x (fill_buf (suc fuel) base x)
unfolding fill_buf put_back value
one_digit fuel base x p q e =
    let (whole, below) = div_mod x base (omega arith) in
    let d = digit_value-digit (x % base) (omega arith) in
    let single : x / base == 0 ≡ true = ground arith in
    let none : x / base * base ≡ 0 = ap (λ (z : ℕ). z * base) e ∙ omega arith in
    rw single (Returns-ok refl (rw d (omega arith)))

next_digit :
    (fuel base x : ℕ)
    → 2 ≤ base
    → base ≤ 16
    → x / base ≢ 0
    → Buffers base (x / base) (fill_buf fuel base (x / base))
    → Buffers base x (fill_buf (suc fuel) base x)
unfolding fill_buf put_back
next_digit fuel base x p q n rest =
    let (whole, below) = div_mod x base (omega arith) in
    let d = digit_value-digit (x % base) (omega arith) in
    let several : x / base == 0 ≡ false = ground arith in
    rw several (
      Returns-bind rest (λ buf e.
        Returns-ok refl
          (value-append base 0 (digit (x % base)) (put_back buf) ∙ rw (e, d) (sym whole))))

fill_buf-value :
    (fuel base x : ℕ)
    → 2 ≤ base
    → base ≤ 16
    → x < 2 ^ fuel
    → Buffers base x (fill_buf (suc fuel) base x)
fill_buf-value zero base x p q h =
    let (whole, below) = div_mod x base (omega arith) in
    let small = half_at_most (x / base) base (x % base) x p whole in
    one_digit zero base x p q (omega arith)
fill_buf-value (suc fuel) base x p q h =
    let (whole, below) = div_mod x base (omega arith) in
    let small = half_at_most (x / base) base (x % base) x p whole in
    let power = pow-suc 2 fuel in
    elim (same_or_not (x / base) 0) [
      | inl e ↦ one_digit (suc fuel) base x p q e
      | inr n ↦
          next_digit (suc fuel) base x p q n (fill_buf-value fuel base (x / base) p q (omega arith))
    ]

moved : (z p : ℕ) → z * 16 * p ≡ z * (p * 16)
moved z p = grind arith

scaled :
    (v y z p p' : ℕ)
    → y ≡ z * 16
    → p' ≡ p * 16
    → (v * 2 ^ 64 ≤ y * p) × (y * p < (v + 1) * 2 ^ 64)
    → (v * 2 ^ 64 ≤ z * p') × (z * p' < (v + 1) * 2 ^ 64)
scaled v y z p p' e f (low, high) =
    let same : y * p ≡ z * p' = rw (e, f) (moved z p) in (omega arith, omega arith)

-- The digits of `printptr`, from the highest on.
put_nibbles-bounds :
    (rounds high x : ℕ)
    → x < 2 ^ 64
    → let v = value 16 high (put_nibbles rounds x) in
      (v * 2 ^ 64 ≤ (high * 2 ^ 64 + x) * 16 ^ rounds)
      × ((high * 2 ^ 64 + x) * 16 ^ rounds < (v + 1) * 2 ^ 64)
unfolding put_nibbles value
put_nibbles-bounds zero high x h = (omega arith, omega arith)
put_nibbles-bounds (suc rounds) high x h =
    let d = digit_value-digit (x / 2 ^ 60) (omega arith) in
    let rest = put_nibbles-bounds rounds (high * 16 + x / 2 ^ 60) (x * 16 % 2 ^ 64) (omega arith) in
    let parts : ((high * 16 + x / 2 ^ 60) * 2 ^ 64 + x * 16 % 2 ^ 64) ≡ (high * 2 ^ 64 + x) * 16 =
      omega arith in
    let power = pow-suc 16 rounds in
    let v = value 16 (high * 16 + x / 2 ^ 60) (put_nibbles rounds (x * 16 % 2 ^ 64)) in
    subst
      (λ e.
        let w = value 16 (high * 16 + e) (put_nibbles rounds (x * 16 % 2 ^ 64)) in
        (w * 2 ^ 64 ≤ (high * 2 ^ 64 + x) * 16 ^ suc rounds)
        × ((high * 2 ^ 64 + x) * 16 ^ suc rounds < (w + 1) * 2 ^ 64))
      (sym d) (scaled v _ (high * 2 ^ 64 + x) (16 ^ rounds) (16 ^ suc rounds) parts power rest)

-- `printptr` writes 16 digits that stand for its argument.
pub printptr-value :
    (x : ℕ)
    → x < 2 ^ 64
    → (digits : List ℕ) × (printptr x ≡ 48 ∷ 120 ∷ digits)
      × (length digits ≡ 16)
      × (value 16 0 digits ≡ x)
unfolding printptr
printptr-value x h =
    let bounds = put_nibbles-bounds 16 0 x h in (put_nibbles 16 x, refl, refl, omega arith)

-- `printint` of a number that is not negative, or is printed without a sign, writes digits that
-- stand for it; otherwise a minus sign and digits that stand for its distance from 0.
pub printint-value :
    (xx base : ℕ) (sign : Bool)
    → xx < 2 ^ 32
    → 10 ≤ base
    → base ≤ 16
    → Returns
        (λ out.
          ((xx < 2 ^ 31) ⊎ (sign ≡ false) → value base 0 out ≡ xx)
          × (2 ^ 31 ≤ xx
              → sign ≡ true
              → (digits : List ℕ) × (out ≡ 45 ∷ digits) × (value base 0 digits + xx ≡ 2 ^ 32)))
        (printint xx base sign)
unfolding printint
printint-value xx base sign h p q = elim (Bool-cases (sign && leb (2 ^ 31) xx)) [
  | inl negative ↦ rw negative (
      Returns-bind (fill_buf-value 32 base ((2 ^ 32 - xx) % 2 ^ 32) (omega arith) q (ground arith))
        (λ buf e.
          Returns-ok refl
            (λ plain. absurd (ground arith), λ big signed. (put_back buf, refl, omega arith))))
  | inr other ↦ rw other (
      Returns-bind (fill_buf-value 32 base xx (omega arith) q (omega arith))
        (λ buf e. Returns-ok refl (λ plain. e, λ big signed. absurd (ground arith))))
]
