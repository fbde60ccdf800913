-- ===== src/Base/Outcomes.antt =====
-- How a kernel call ends: it returns, or `panic` (kernel/printf.c) prints and shuts the machine
-- down, or the loop of the model uses up its fuel.
use mathlib.Core.Path.{◌≡◌, refl}

pub data Run {ℓ} (A : Type ℓ) : Type ℓ where
  ok : A → Run A
  panic : Run A
  out_of_fuel : Run A

-- The rest of a call runs only if the part before it has returned.
infixl 5 ◌>>=◌
abbrev pub ◌>>=◌ {ℓ κ} : {A : Type ℓ} {B : Type κ} → Run A → (A → Run B) → Run B
◌>>=◌ call rest = elim call [ panic ↦ panic | out_of_fuel ↦ out_of_fuel | ok result ↦ rest result ]

-- The call returns, and `Post` holds of what it returns.
pub data Returns {ℓ κ} {A : Type ℓ} (Post : A → Type κ) : Run A → Type (ℓ ⊔ κ) where
  returns : {result : A} → Post result → Returns Post (ok result)

module _ {ℓ κ} {A : Type ℓ} {Post : A → Type κ} where
  pub Returns-ok : {call : Run A} {result : A} → call ≡ ok result → Post result → Returns Post call
  Returns-ok e post = rw e (returns post)

  returned : {result : A} → Returns Post (ok result) → Post result
  returned (returns post) = post

  -- What holds of the result of a call whose result is known.
  pub Returns-at : {call : Run A} {result : A} → Returns Post call → call ≡ ok result → Post result
  Returns-at h e = returned (rw e at h)

  pub Returns-inv :
      {call : Run A} → Returns Post call → (result : A) × (call ≡ ok result) × Post result
  Returns-inv (returns post) = (_, refl, post)

  pub Returns-mono {κ'} :
      {Weaker : A → Type κ'} {call : Run A}
      → Returns Post call
      → ((result : A) → Post result → Weaker result)
      → Returns Weaker call
  Returns-mono (returns post) weaken = returns (weaken _ post)

  pub Returns-bind {ℓ' κ'} :
      {B : Type ℓ'} {Final : B → Type κ'} {call : Run A} {rest : A → Run B}
      → Returns Post call
      → ((result : A) → Post result → Returns Final (rest result))
      → Returns Final (call >>= rest)
  Returns-bind (returns post) rest = rest _ post
