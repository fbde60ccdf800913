-- ===== src/Context/Bits.antt =====
-- Single bits of words, for kernel/thread.c.
use Prim.Native.Nat.{bit_and, bit_or, min, max}
use moonix.Base.{
  ℕ, zero, suc, ◌/◌, ◌%◌, ◌^◌, ◌≤◌, ◌<◌, ◌≡◌, refl, ap, ◌∙◌, arith, true, false, ◌==◌,
}
use moonix.Heap.Bits.{and-step, or-step, pow2}
use moonix.Paging.Words.{and_zero, and_even}
use moonix.Context.{is_set, complement, sstatus_spp, sstatus_spie, sstatus_sie}

-- Bit `k` of a number.
abbrev pub bit : ℕ → ℕ → ℕ
bit zero x = x % 2
bit (suc k) x = bit k (x / 2)

or-half :
    (a b : ℕ) → (bit_or a b / 2 ≡ bit_or (a / 2) (b / 2)) × (bit_or a b % 2 ≡ max (a % 2) (b % 2))
or-half a b = let step = or-step a b in (ground arith, ground arith)

and-half :
    (a b : ℕ)
    → (bit_and a b / 2 ≡ bit_and (a / 2) (b / 2)) × (bit_and a b % 2 ≡ min (a % 2) (b % 2))
and-half a b = let step = and-step a b in (ground arith, ground arith)

pub bit-or : (k a b : ℕ) → bit k (bit_or a b) ≡ max (bit k a) (bit k b)
bit-or zero a b = (or-half a b).1
bit-or (suc k) a b = ap (bit k) (or-half a b).0 ∙ bit-or k (a / 2) (b / 2)

pub bit-and : (k a b : ℕ) → bit k (bit_and a b) ≡ min (bit k a) (bit k b)
bit-and zero a b = (and-half a b).1
bit-and (suc k) a b = ap (bit k) (and-half a b).0 ∙ bit-and k (a / 2) (b / 2)

pub bit-le : (k a : ℕ) → bit k a ≤ 1
bit-le zero a = omega arith
bit-le (suc k) a = bit-le k (a / 2)

-- The test of a single bit.
pub is_set-bit : (k x : ℕ) → is_set x (pow2 k) ≡ (bit k x == 1)
unfolding pow2
is_set-bit zero x =
    let step = and-step x 1 in
    let none = and_zero (x / 2) in let half : 1 / 2 ≡ 0 = refl in ground arith
is_set-bit (suc k) x =
    let rest = is_set-bit k (x / 2) in let even = and_even x (pow2 k) in ground arith

and-le : (fuel a b : ℕ) → b ≤ fuel → bit_and a b ≤ b
and-le zero a b h = let none : b ≡ 0 = omega arith in rw (none, and_zero a) (omega arith)
and-le (suc fuel) a zero h = rw (and_zero a) (omega arith)
and-le (suc fuel) a (suc b) h =
    let rest = and-le fuel (a / 2) (suc b / 2) (omega arith) in
    let step = and-step a (suc b) in omega arith

-- A word that is masked is a word.
pub and-fits : (a b : ℕ) → b < 2 ^ 64 → bit_and a b < 2 ^ 64
and-fits a b h = let le = and-le b a b (omega arith) in omega arith

-- `sstatus` for a thread that is to run in user mode, and for one of the kernel.
abbrev pub user_status : ℕ → ℕ
user_status s =
    bit_and (bit_or (bit_and s (complement sstatus_spp)) sstatus_spie) (complement sstatus_sie)

abbrev pub kernel_status : ℕ → ℕ
kernel_status s = bit_and (bit_or (bit_or s sstatus_spp) sstatus_spie) (complement sstatus_sie)

-- The bit `k` of the two, for a bit that is set in none of the masks or in some.
user_status-bit :
    (k s : ℕ)
    → bit k (user_status s)
      ≡ min
          (max (min (bit k s) (bit k (complement sstatus_spp))) (bit k sstatus_spie))
          (bit k (complement sstatus_sie))
user_status-bit k s =
    bit-and k (bit_or (bit_and s (complement sstatus_spp)) sstatus_spie) (complement sstatus_sie)
    ∙ ap (λ b. min b (bit k (complement sstatus_sie)))
        (bit-or k (bit_and s (complement sstatus_spp)) sstatus_spie)
    ∙ ap (λ b. min (max b (bit k sstatus_spie)) (bit k (complement sstatus_sie)))
        (bit-and k s (complement sstatus_spp))

kernel_status-bit :
    (k s : ℕ)
    → bit k (kernel_status s)
      ≡ min
          (max (max (bit k s) (bit k sstatus_spp)) (bit k sstatus_spie))
          (bit k (complement sstatus_sie))
kernel_status-bit k s =
    bit-and k (bit_or (bit_or s sstatus_spp) sstatus_spie) (complement sstatus_sie)
    ∙ ap (λ b. min b (bit k (complement sstatus_sie)))
        (bit-or k (bit_or s sstatus_spp) sstatus_spie)
    ∙ ap (λ b. min (max b (bit k sstatus_spie)) (bit k (complement sstatus_sie)))
        (bit-or k s sstatus_spp)

-- In user mode after `sret`, with interrupts on.
pub user_status-set :
    (s : ℕ)
    → (is_set (user_status s) sstatus_spp ≡ false) × (is_set (user_status s) sstatus_spie ≡ true)
unfolding pow2
user_status-set s =
    let small = bit-le 8 s in
    let spp : bit 8 (user_status s) ≡ 0 = user_status-bit 8 s ∙ omega arith in
    let small' = bit-le 5 s in
    let spie : bit 5 (user_status s) ≡ 1 = user_status-bit 5 s ∙ omega arith in
    (
      is_set-bit 8 (user_status s) ∙ ap (λ b. b == 1) spp,
      is_set-bit 5 (user_status s) ∙ ap (λ b. b == 1) spie,
    )

-- In the kernel's mode after `sret`, with interrupts on.
pub kernel_status-set :
    (s : ℕ)
    → (is_set (kernel_status s) sstatus_spp ≡ true) × (is_set (kernel_status s) sstatus_spie ≡ true)
unfolding pow2
kernel_status-set s =
    let small = bit-le 8 s in
    let spp : bit 8 (kernel_status s) ≡ 1 = kernel_status-bit 8 s ∙ omega arith in
    let small' = bit-le 5 s in
    let spie : bit 5 (kernel_status s) ≡ 1 = kernel_status-bit 5 s ∙ omega arith in
    (
      is_set-bit 8 (kernel_status s) ∙ ap (λ b. b == 1) spp,
      is_set-bit 5 (kernel_status s) ∙ ap (λ b. b == 1) spie,
    )
