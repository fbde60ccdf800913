-- ===== src/Heap/Bits.antt =====
-- The bit tricks of kernel/heap.c: `IS_POWER_OF_2` and `fixSize`.
use Prim.Native.Nat.{min, max, bit_and, bit_or, digits, bit_and-bitwise, bit_or-bitwise}
use mathlib.Core.Path.{ap₂}
use native.Mathlib.Nat.{div-div-eq-div-mul}
use moonix.Base.{
  ℕ, zero, suc, ◌+◌, ◌-◌, ◌*◌, ◌/◌, ◌%◌, ◌^◌, ◌≤◌, ◌<◌, ◌≡◌, ◌≢◌, refl, arith, ap, sym, ◌∙◌, ◌⊎◌,
  inl, inr, true, Bool-cases,
}
use moonix.Heap.{is_power_of_2, smear, fix_size, round_up}

-- `2 ^ h`, by doubling.
unfoldable pub pow2 : ℕ → ℕ
pow2 zero = 1
pow2 (suc h) = pow2 h * 2

-- The digits of an operation do not depend on the count that bounds them.
digits-count :
    (z : ℕ → ℕ) (f : ℕ → ℕ → ℕ) (n m a b : ℕ) → a ≤ n → a ≤ m → digits z f n a b ≡ digits z f m a b
digits-count z f zero zero a b p q = refl
digits-count z f zero (suc m) zero b p q = refl
digits-count z f zero (suc m) (suc a) b p q = absurd (omega arith)
digits-count z f (suc n) zero zero b p q = refl
digits-count z f (suc n) zero (suc a) b p q = absurd (omega arith)
digits-count z f (suc n) (suc m) zero b p q = refl
digits-count z f (suc n) (suc m) (suc a) b p q =
    ap (λ (d : ℕ). d * 2 + f (suc a % 2) (b % 2))
      (digits-count z f n m (suc a / 2) (b / 2) (omega arith) (omega arith))

pub and-step : (a b : ℕ) → bit_and a b ≡ bit_and (a / 2) (b / 2) * 2 + min (a % 2) (b % 2)
and-step zero b = omega (arith, bit_and-bitwise 0 b, bit_and-bitwise 0 (b / 2))
and-step (suc a) b = omega (
  arith,
  bit_and-bitwise (suc a) b,
  bit_and-bitwise (suc a / 2) (b / 2),
  digits-count (λ _. zero) min a (suc a / 2) (suc a / 2) (b / 2) (omega arith) (omega arith),
)

pub or-step : (a b : ℕ) → bit_or a b ≡ bit_or (a / 2) (b / 2) * 2 + max (a % 2) (b % 2)
or-step zero b = omega (arith, bit_or-bitwise 0 b, bit_or-bitwise 0 (b / 2))
or-step (suc a) b = omega (
  arith,
  bit_or-bitwise (suc a) b,
  bit_or-bitwise (suc a / 2) (b / 2),
  digits-count (λ c. c) max a (suc a / 2) (suc a / 2) (b / 2) (omega arith) (omega arith),
)

-- A function that commutes with dropping the lowest digit.
abbrev Halves : (ℕ → ℕ) → Type 0
Halves f = (n : ℕ) → f n / 2 ≡ f (n / 2)

Halves-pow2 : (f : ℕ → ℕ) → Halves f → (t n : ℕ) → f n / pow2 t ≡ f (n / pow2 t)
unfolding pow2
Halves-pow2 f h zero n =
    let same : n / 1 ≡ n = omega arith in
    let same' : f n / 1 ≡ f n = omega arith in same' ∙ ap f (sym same)
Halves-pow2 f h (suc t) n =
    sym (div-div-eq-div-mul (f n) (pow2 t) 2)
    ∙ ap (λ (k : ℕ). k / 2) (Halves-pow2 f h t n)
    ∙ h (n / pow2 t)
    ∙ ap f (div-div-eq-div-mul n (pow2 t) 2)

smear-Halves :
    (d : ℕ) (f : ℕ → ℕ) → ((m : ℕ) → m / d / 2 ≡ m / 2 / d) → Halves f → Halves (λ n. smear d (f n))
unfolding smear
smear-Halves d f swap h n =
    let halved : bit_or (f n) (f n / d) / 2 ≡ bit_or (f n / 2) (f n / d / 2) =
      omega (arith, or-step (f n) (f n / d)) in
    halved ∙ ap₂ bit_or (h n) (swap (f n) ∙ ap (λ (k : ℕ). k / d) (h n))

-- An even result means that the digits which were joined are all 0.
smear-even :
    (d : ℕ) (f : ℕ → ℕ)
    → ((n : ℕ) → f n / d ≡ f (n / d))
    → ((n : ℕ) → f n % 2 ≡ 0 → n % d ≡ 0)
    → (n : ℕ) → smear d (f n) % 2 ≡ 0
    → (n % d ≡ 0) × (n / d % d ≡ 0)
unfolding smear
smear-even d f shift even n z =
    let both : (f n % 2 ≡ 0) × (f n / d % 2 ≡ 0) = omega (arith, or-step (f n) (f n / d)) in
    (even n both.0, even (n / d) (sym (ap (λ (k : ℕ). k % 2) (shift n)) ∙ both.1))

-- The five steps of `fixSize`, as functions of the number that they start from.
abbrev c1 : ℕ → ℕ
c1 n = smear 2 n

abbrev c2 : ℕ → ℕ
c2 n = smear 4 (c1 n)

abbrev c3 : ℕ → ℕ
c3 n = smear 16 (c2 n)

abbrev c4 : ℕ → ℕ
c4 n = smear 256 (c3 n)

abbrev c5 : ℕ → ℕ
c5 n = smear 65536 (c4 n)

h1 : Halves c1
h1 = smear-Halves 2 (λ n. n) (λ m. omega arith) (λ n. refl)

h2 : Halves c2
h2 = smear-Halves 4 c1 (λ m. omega arith) h1

h3 : Halves c3
h3 = smear-Halves 16 c2 (λ m. omega arith) h2

h4 : Halves c4
h4 = smear-Halves 256 c3 (λ m. omega arith) h3

h5 : Halves c5
h5 = smear-Halves 65536 c4 (λ m. omega arith) h4

e1 : (n : ℕ) → c1 n % 2 ≡ 0 → n % 4 ≡ 0
e1 n z = omega (arith, smear-even 2 (λ n. n) (λ n. refl) (λ n p. p) n z)

e2 : (n : ℕ) → c2 n % 2 ≡ 0 → n % 16 ≡ 0
unfolding pow2
e2 n z = omega (arith, smear-even 4 c1 (Halves-pow2 c1 h1 2) e1 n z)

e3 : (n : ℕ) → c3 n % 2 ≡ 0 → n % 256 ≡ 0
unfolding pow2
e3 n z = omega (arith, smear-even 16 c2 (Halves-pow2 c2 h2 4) e2 n z)

e4 : (n : ℕ) → c4 n % 2 ≡ 0 → n % 65536 ≡ 0
unfolding pow2
e4 n z = omega (arith, smear-even 256 c3 (Halves-pow2 c3 h3 8) e3 n z)

e5 : (n : ℕ) → c5 n % 2 ≡ 0 → n % 2 ^ 32 ≡ 0
unfolding pow2
e5 n z = omega (arith, smear-even 65536 c4 (Halves-pow2 c4 h4 16) e4 n z)

c5_ones :
    (fuel n : ℕ)
    → n ≤ fuel
    → 0 < n
    → n < 2 ^ 32
    → (h : ℕ) × (c5 n + 1 ≡ pow2 h) × (n < pow2 h) × (pow2 h ≤ n * 2)
unfolding pow2 smear
c5_ones zero n b p q = absurd (omega arith)
c5_ones (suc fuel) zero b p q = absurd (omega arith)
c5_ones (suc fuel) (suc zero) b p q = (1, refl, omega arith, omega arith)
c5_ones (suc fuel) (suc (suc n)) b p q =
    let m = suc (suc n) in
    let odd : c5 m % 2 ≢ 0 = λ z. absurd (omega (arith, e5 m z)) in
    let (h, full, above, below) = c5_ones fuel (m / 2) (omega arith) (omega arith) (omega arith) in
    (suc h, omega (arith, h5 m), omega arith, omega arith)

-- `fixSize` gives the least power of two that is not below its argument.
pub fix_size-pow2 :
    (size : ℕ)
    → 1 < size
    → size ≤ 2 ^ 31
    → (h : ℕ) × (fix_size size ≡ pow2 h) × (size ≤ pow2 h) × (pow2 h < size * 2)
unfolding fix_size
fix_size-pow2 size p q =
    let (h, full, above, below) =
      c5_ones size (size - 1) (omega arith) (omega arith) (omega arith) in
    (h, full, omega arith, omega arith)

self-and : (fuel a : ℕ) → a ≤ fuel → bit_and a a ≡ a
self-and zero a h = let e : a ≡ 0 = omega arith in rw e
self-and (suc fuel) zero h = refl
self-and (suc fuel) (suc a) h =
    omega (arith, and-step (suc a) (suc a), self-and fuel (suc a / 2) (omega arith))

pub pow2-pos : (h : ℕ) → 0 < pow2 h
unfolding pow2
pow2-pos zero = omega arith
pow2-pos (suc h) = omega (arith, pow2-pos h)

pub and_double : (p : ℕ) → 0 < p → bit_and (p * 2) (p * 2 - 1) ≡ bit_and p (p - 1) * 2
and_double p pos =
    let low : p * 2 / 2 ≡ p = omega arith in
    let high : (p * 2 - 1) / 2 ≡ p - 1 = omega arith in
    let step = and-step (p * 2) (p * 2 - 1) in let same = ap₂ bit_and low high in omega arith

pub and_odd : (p : ℕ) → bit_and (p * 2 + 1) (p * 2 + 1 - 1) ≡ p * 2
and_odd p =
    let low : (p * 2 + 1) / 2 ≡ p = omega arith in
    let high : (p * 2 + 1 - 1) / 2 ≡ p = omega arith in
    let step = and-step (p * 2 + 1) (p * 2 + 1 - 1) in
    let same = ap₂ bit_and low high in omega (arith, self-and p p (omega arith))

-- `IS_POWER_OF_2` holds of the powers of two, and of no other positive number.
pub is_power_of_2-pow2 : (h : ℕ) → is_power_of_2 (pow2 h) ≡ true
unfolding is_power_of_2 pow2
is_power_of_2-pow2 zero = refl
is_power_of_2-pow2 (suc h) = ground (arith, and_double (pow2 h) (pow2-pos h), is_power_of_2-pow2 h)

halves : (x : ℕ) → (x ≡ x / 2 * 2) ⊎ (x ≡ x / 2 * 2 + 1)
halves x = grind arith

pub pow2_of : (fuel x : ℕ) → x ≤ fuel → 0 < x → is_power_of_2 x ≡ true → (h : ℕ) × (x ≡ pow2 h)
unfolding is_power_of_2 pow2
pow2_of zero x b p e = absurd (omega arith)
pow2_of (suc fuel) x b p e = elim (halves x) [
  | inl even ↦
      let none_left : bit_and x (x - 1) ≡ 0 = ground arith in
      let split = ap (λ (k : ℕ). bit_and k (k - 1)) even in
      let half = and_double (x / 2) (omega arith) in
      let down : is_power_of_2 (x / 2) ≡ true = ground arith in
      let (h, at) = pow2_of fuel (x / 2) (omega arith) (omega arith) down in (suc h, omega arith)
  | inr odd ↦
      let none_left : bit_and x (x - 1) ≡ 0 = ground arith in
      let split = ap (λ (k : ℕ). bit_and k (k - 1)) odd in (0, omega (arith, and_odd (x / 2)))
]

-- The number of blocks that `buddyAlloc` hands out for a request: the least power of two that is
-- not below it.
pub round_up-pow2 :
    (blocks : ℕ)
    → 0 < blocks
    → blocks ≤ 2 ^ 31
    → (h : ℕ) × (round_up blocks ≡ pow2 h) × (blocks ≤ pow2 h) × (pow2 h < blocks * 2)
unfolding round_up
round_up-pow2 blocks p q = elim (Bool-cases (is_power_of_2 blocks)) [
  | inl is ↦
      let (h, e) = pow2_of blocks blocks (omega arith) p is in
      (h, ground arith, omega arith, omega arith)
  | inr other ↦
      let (h, e, lo, hi) = fix_size-pow2 blocks (ground arith) q in (h, ground arith, lo, hi)
]
