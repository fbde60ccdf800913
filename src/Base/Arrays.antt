-- ===== src/Base/Arrays.antt =====
-- A C array is a function from indices to entries. The theorems of each component bound the
-- indices that its code reaches.
use Prim.Native.Nat.{ℕ}
use mathlib.Core.Bool.{true, false}
use mathlib.Core.Logic.{◌≢◌}
use mathlib.Core.Path.{◌≡◌, refl}
use native.Mathlib.Omega.{arith}
use moonix.Base.Tests.{◌==◌, if◌then◌else◌}

-- `a[i] = v`
abbrev pub update {ℓ} : {A : Type ℓ} → (ℕ → A) → ℕ → A → ℕ → A
update a i v j = if i == j then v else a j

module _ {ℓ} {A : Type ℓ} (a : ℕ → A) (i : ℕ) (v : A) where
  pub update-at : update a i v i ≡ v
  update-at = let same : i == i ≡ true = ground arith in rw same refl

  pub update-other : (j : ℕ) → i ≢ j → update a i v j ≡ a j
  update-other j n = let other : i == j ≡ false = ground arith in rw other refl
