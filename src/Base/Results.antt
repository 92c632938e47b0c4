-- ===== src/Base/Results.antt =====
-- `Result` of the source: a value or an error, with the `?` operator as bind.
use mathlib.Core.Path.{◌≡◌, refl}
use mathlib.Core.Logic.{◌⊎◌, inl, inr}
use native.Mathlib.Omega.{arith}

pub data Result {ℓ κ} (E : Type κ) (A : Type ℓ) : Type (ℓ ⊔ κ) where
  ok : A → Result E A
  err : E → Result E A

module _ {ν ℓ} {E : Type ν} {A : Type ℓ} where
  infixl 5 ◌>>=◌
  -- A failure ends the chain.
  abbrev pub ◌>>=◌ {κ} : {B : Type κ} → Result E A → (A → Result E B) → Result E B
  err failure >>= next = err failure
  ok value >>= next = next value

  pub Result-cases : (r : Result E A) → ((a : A) × (r ≡ ok a)) ⊎ ((e : E) × (r ≡ err e))
  Result-cases (err failure) = inr (failure, refl)
  Result-cases (ok value) = inl (value, refl)

  pub ok-injective : {x y : A} → ◌≡◌ {A = Result E A} (ok x) (ok y) → x ≡ y
  ok-injective same = ground arith

  pub err-ne-ok : {x : A} {failure : E} → ◌≡◌ {A = Result E A} (err failure) (ok x) → ⊥
  err-ne-ok same = cc

  -- What a chain that succeeded went through.
  pub >>=-eq-ok {κ} :
      {B : Type κ} (first : Result E A) (next : A → Result E B) {result : B}
      → (first >>= next) ≡ ok result
      → (x : A) × (first ≡ ok x) × (next x ≡ ok result)
  >>=-eq-ok (err failure) next done = ground arith
  >>=-eq-ok (ok value) next done = (value, refl, done)

pub >>=-assoc {ν ℓ κ μ} :
    {E : Type ν} {A : Type ℓ} {B : Type κ} {C : Type μ} (first : Result E A) (next : A → Result E B)
    (last : B → Result E C)
    → (first >>= next >>= last) ≡ (first >>= λ x. next x >>= last)
>>=-assoc (err failure) next last = refl
>>=-assoc (ok value) next last = refl
