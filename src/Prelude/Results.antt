-- ===== src/Prelude/Results.antt =====
-- A call that may throw: its value, or what was thrown. The `Error`s are those that the sources
-- throw themselves, and one for each call outside the sources that can throw.
use mathlib.Core.Path.{◌≡◌, refl}
use mathlib.Core.Logic.{◌⊎◌, inl, inr}
use Prim.Native.Nat.{ℕ}
use mathlib.Core.Option.{Option, none, some}

pub data Error : Type 0 where
  invalid_base64 : Error
  ciphertext_too_short : Error
  unsupported_version : ℕ → Error
  authentication_failed : Error
  invalid_key_length : Error
  invalid_public_key : Error
  invalid_scalar : Error
  invalid_point : Error
  invalid_json : Error
  not_an_object : Error
  malformed_uri : Error

pub data Result {ℓ} (A : Type ℓ) : Type ℓ where
  err : Error → Result A
  ok : A → Result A

pub Result-cases {ℓ} :
    {A : Type ℓ} (r : Result A) → ((a : A) × (r ≡ ok a)) ⊎ ((e : Error) × (r ≡ err e))
Result-cases (ok a) = inl (a, refl)
Result-cases (err e) = inr (e, refl)

pub ok-injective {ℓ} : {A : Type ℓ} {a b : A} → ok a ≡ ok b → a ≡ b
ok-injective h = cc

-- What a `try` with an empty `catch` makes of a call: its value, if there is one.
abbrev pub to_option {ℓ} : {A : Type ℓ} → Result A → Option A
to_option (err thrown) = none
to_option (ok value) = some value

infixl 5 ◌>>=◌
-- A statement after another: nothing runs after a throw.
abbrev pub ◌>>=◌ {ℓ κ} : {X : Type ℓ} {Y : Type κ} → Result X → (X → Result Y) → Result Y
err thrown >>= k = err thrown
ok x >>= k = k x

-- Where a chain returns, so does its first call.
pub >>=-eq-ok {ℓ κ} :
    {X : Type ℓ} {Y : Type κ} {y : Y} (r : Result X) (k : X → Result Y)
    → (r >>= k) ≡ ok y
    → (x : X) × (r ≡ ok x) × (k x ≡ ok y)
>>=-eq-ok (err thrown) k h = cc
>>=-eq-ok (ok x) k h = (x, refl, h)
