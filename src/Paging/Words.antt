-- ===== src/Paging/Words.antt =====
-- Bit masks and words in memory, for kernel/mapping.c.
use Prim.Native.Nat.{bit_and, bit_or}
use native.Mathlib.Nat.{mod-eq-sub-div-mul, div-div-eq-div-mul, div-mul-le_self}
use moonix.Base.{
  ℕ, zero, suc, ◌+◌, ◌-◌, ◌*◌, ◌/◌, ◌%◌, ◌^◌, ◌≤◌, ◌<◌, ◌≡◌, refl, arith, ap, ◌∙◌, update,
  update-at, update-other,
}
use moonix.Heap.Bits.{pow2, pow2-pos, and-step, or-step}
use moonix.Paging.{load, store}

mod_double : (x m : ℕ) → 0 < m → x % (m * 2) ≡ x / 2 % m * 2 + x % 2
mod_double x m pos =
    let swap : 2 * m ≡ m * 2 = omega arith in
    let quotient : x / 2 / m ≡ x / (m * 2) =
      div-div-eq-div-mul x 2 m ∙ ap (λ (d : ℕ). x / d) swap in
    let whole = mod-eq-sub-div-mul x (m * 2) in
    let half = mod-eq-sub-div-mul (x / 2) m in let low = div-mul-le_self (x / 2) m in grind arith

pub and_zero : (x : ℕ) → bit_and x 0 ≡ 0
and_zero x = below x x (omega arith)
  where
    below : (fuel x : ℕ) → x ≤ fuel → bit_and x 0 ≡ 0
    below zero x h = let none : x ≡ 0 = omega arith in rw none refl
    below (suc fuel) zero h = refl
    below (suc fuel) (suc x) h =
        omega (arith, and-step (suc x) 0, below fuel (suc x / 2) (omega arith))

-- A mask of the `k` lowest bits.
pub low_bits : (k x : ℕ) → bit_and x (pow2 k - 1) ≡ x % pow2 k
unfolding pow2
low_bits zero x = let zero_rest : 0 ≡ x % 1 = omega arith in and_zero x ∙ zero_rest
low_bits (suc k) x =
    let pos = pow2-pos k in
    let half : (pow2 k * 2 - 1) / 2 ≡ pow2 k - 1 = omega arith in
    let step = and-step x (pow2 k * 2 - 1) in
    let rest' = rw half at step in omega (arith, mod_double x (pow2 k) pos, low_bits k (x / 2))

-- A mask whose lowest bit is not set.
pub and_even : (x m : ℕ) → bit_and x (m * 2) ≡ bit_and (x / 2) m * 2
and_even x m =
    let half : m * 2 / 2 ≡ m = omega arith in
    let step = and-step x (m * 2) in (rw half at step) ∙ omega arith

-- A number and one that fits below its lowest bit.
or_even : (a b : ℕ) → bit_or (a * 2) b ≡ bit_or a (b / 2) * 2 + b % 2
or_even a b =
    let half : a * 2 / 2 ≡ a = omega arith in
    let step = or-step (a * 2) b in (rw half at step) ∙ ground arith

quotient_double : (x m : ℕ) → x / 2 / m ≡ x / (m * 2)
quotient_double x m =
    let swap : 2 * m ≡ m * 2 = omega arith in div-div-eq-div-mul x 2 m ∙ ap (λ (d : ℕ). x / d) swap

-- Masks and sums above the `k` lowest bits.
pub and_shifted : (k x m : ℕ) → bit_and x (m * pow2 k) ≡ bit_and (x / pow2 k) m * pow2 k
unfolding pow2
and_shifted zero x m =
    let one : m * 1 ≡ m = omega arith in
    let same : x / 1 ≡ x = omega arith in rw (one, same) (omega arith)
and_shifted (suc k) x m =
    let twice : m * (pow2 k * 2) ≡ m * pow2 k * 2 = grind arith in
    let rest = and_shifted k (x / 2) m in
    rw (twice, and_even x (m * pow2 k), rest, quotient_double x (pow2 k)) (grind arith)

pub or_shifted : (k a b : ℕ) → bit_or (a * pow2 k) b ≡ bit_or a (b / pow2 k) * pow2 k + b % pow2 k
unfolding pow2
or_shifted zero a b =
    let one : a * 1 ≡ a = omega arith in
    let same : b / 1 ≡ b = omega arith in rw (one, same) (omega arith)
or_shifted (suc k) a b =
    let twice : a * (pow2 k * 2) ≡ a * pow2 k * 2 = grind arith in
    let rest = or_shifted k a (b / 2) in
    rw
      (
        twice,
        or_even (a * pow2 k) b,
        rest,
        quotient_double b (pow2 k),
        mod_double b (pow2 k) (pow2-pos k),
      )
      (grind arith)

pub or_zero : (x : ℕ) → bit_or x 0 ≡ x
or_zero x = below x x (omega arith)
  where
    below : (fuel x : ℕ) → x ≤ fuel → bit_or x 0 ≡ x
    below zero x h = let none : x ≡ 0 = omega arith in rw none refl
    below (suc fuel) zero h = refl
    below (suc fuel) (suc x) h =
        ground (arith, or-step (suc x) 0, below fuel (suc x / 2) (omega arith))

load-update :
    (memory : ℕ → ℕ) (addr n p v : ℕ)
    → p < addr
    → load (update memory p v) addr n ≡ load memory addr n
unfolding load
load-update memory addr zero p v h = refl
load-update memory addr (suc n) p v h =
    ground (arith, load-update memory (addr + 1) n p v (omega arith))

store-below : (memory : ℕ → ℕ) (addr n v p : ℕ) → p < addr → store memory addr n v p ≡ memory p
unfolding store
store-below memory addr zero v p h = refl
store-below memory addr (suc n) v p h =
    store-below (update memory addr (v % 256)) (addr + 1) n (v / 256) p (omega arith)
    ∙ update-other memory addr (v % 256) p (omega arith)

-- A word is read as it was written.
pub load-store :
    (memory : ℕ → ℕ) (addr n v : ℕ) → v < 256 ^ n → load (store memory addr n v) addr n ≡ v
unfolding load store
load-store memory addr zero v h = omega arith
load-store memory addr (suc n) v h =
    let rest = load-store (update memory addr (v % 256)) (addr + 1) n (v / 256) (omega arith) in
    let first =
      store-below (update memory addr (v % 256)) (addr + 1) n (v / 256) addr (omega arith)
      ∙ update-at memory addr (v % 256) in
    rw (first, rest) (omega arith)
