-- ===== src/Base/Lists.antt =====
-- Sequences of numbers: membership as a test, absence of repeats, length over the native numbers.
use Prim.Native.Nat.{ℕ, suc, ◌+◌}
use mathlib.Core.Path.{◌≡◌, refl}
use mathlib.Core.Bool.{Bool, false, ◌||◌}
use mathlib.Core.List.{List, [], ◌∷◌, ◌++◌}
use native.Mathlib.Omega.{arith}
use moonix.Base.Tests.{◌==◌}

abbrev pub length {ℓ} : {A : Type ℓ} → List A → ℕ
length [] = 0
length (x ∷ xs) = suc (length xs)

abbrev pub has : ℕ → List ℕ → Bool
has a [] = false
has a (x ∷ xs) = x == a || has a xs

-- No entry twice.
abbrev pub IsDistinct : List ℕ → Type 0
IsDistinct [] = Unit
IsDistinct (x ∷ xs) = (has x xs ≡ false) × IsDistinct xs

pub length-append {ℓ} : {A : Type ℓ} (xs ys : List A) → length (xs ++ ys) ≡ length xs + length ys
length-append [] ys = omega arith
length-append (x ∷ xs) ys = omega (arith, length-append xs ys)

pub has-snoc : (a x : ℕ) (xs : List ℕ) → has a (xs ++ x ∷ []) ≡ (x == a || has a xs)
has-snoc a x [] = refl
has-snoc a x (y ∷ xs) = ground (arith, has-snoc a x xs)

pub IsDistinct-snoc :
    (x : ℕ) (xs : List ℕ) → IsDistinct xs → has x xs ≡ false → IsDistinct (xs ++ x ∷ [])
IsDistinct-snoc x [] d h = (refl, tt)
IsDistinct-snoc x (y ∷ xs) d h =
    (ground (arith, has-snoc y x xs), IsDistinct-snoc x xs d.1 (ground arith))
