-- ===== src/Prelude/Errors.antt =====
-- Python code that may raise: the value, or the exception's class.
use mathlib.Core.Path.{◌≡◌, refl}
use mathlib.Core.Logic.{◌⊎◌, inl, inr}
use mathlib.Core.Bool.{Bool, true, false}

pub data Error : Type 0 where
  value_error struct_error overflow_error index_error key_error reed_solomon_error : Error
  zero_division_error invalid_tag attribute_error : Error

pub data Result {ℓ} (A : Type ℓ) : Type ℓ where
  ok : A → Result A
  raise : Error → Result A

infixl 5 ◌>>=◌ ◌>>◌
abbrev pub ◌>>=◌ {ℓ κ} : {A : Type ℓ} {B : Type κ} (r : Result A) (next : A → Result B) → Result B
raise error >>= next = raise error
ok result >>= next = next result

-- `if b: raise e`
abbrev pub raise_if : Bool → Error → Result (Unit {0})
raise_if true e = raise e
raise_if false e = ok tt

abbrev pub ◌>>◌ {κ} : {B : Type κ} (r : Result (Unit {0})) (next : Result B) → Result B
r >> next = r >>= λ done. next

-- A sequence that succeeds has succeeded at each step.
pub >>=-eq-ok {ℓ κ} :
    {B : Type κ} {A : Type ℓ} (r : Result A) (next : A → Result B) {final : B}
    → (r >>= next) ≡ ok final
    → (value : A) × (r ≡ ok value) × (next value ≡ ok final)
>>=-eq-ok (raise error) next success = cc
>>=-eq-ok (ok value) next success = (value, refl, success)

module _ {ℓ} {A : Type ℓ} where
  pub ok-injective : {a b : A} → ok a ≡ ok b → a ≡ b
  ok-injective h = cc

  pub raise-ne-ok : {e : Error} {a : A} → raise e ≡ ok a → ⊥
  raise-ne-ok h = cc

  -- To split on a computed result and keep the equation.
  pub Result-cases : (r : Result A) → ((a : A) × (r ≡ ok a)) ⊎ ((e : Error) × (r ≡ raise e))
  Result-cases (ok a) = inl (a, refl)
  Result-cases (raise e) = inr (e, refl)
