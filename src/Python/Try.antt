-- ===== src/Python/Try.antt =====
-- A computation that may raise. `Exc` has the exception classes that the program tells apart.
use finna_app.Prelude.{◌≡◌, refl, ◌⊎◌, inl, inr}

pub data Exc : Type 0 where
  key_error attribute_error type_error value_error invalid_operation db_error runtime_error : Exc
  zero_division_error pool_timeout os_error : Exc

pub data Try {ℓ} (A : Type ℓ) : Type ℓ where
  ok : A → Try A
  raise : Exc → Try A

infixl 5 ◌>>=◌
abbrev pub ◌>>=◌ {ℓ κ} : {A : Type ℓ} {B : Type κ} → Try A → (A → Try B) → Try B
ok a >>= f = f a
raise e >>= f = raise e

-- Inversion of a bind that returned.
pub >>=-eq-ok {ℓ κ} :
    {A : Type ℓ} {B : Type κ} {result : B} (action : Try A) (rest : A → Try B)
    → (action >>= rest) ≡ ok result
    → (value : A) × (action ≡ ok value) × (rest value ≡ ok result)
>>=-eq-ok (raise e) rest returned = cc
>>=-eq-ok (ok value) rest returned = (value, refl, returned)

pub Try-cases {ℓ} : {A : Type ℓ} (m : Try A) → ((a : A) × (m ≡ ok a)) ⊎ ((e : Exc) × (m ≡ raise e))
Try-cases (ok a) = inl (a, refl)
Try-cases (raise e) = inr (e, refl)
