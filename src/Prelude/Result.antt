-- ===== src/Prelude/Result.antt =====
-- The exceptions of include/MediaSoupClientErrors.hpp as values, and the outcome of code that may
-- throw.
use Prim.Native.String.{String}
use mathlib.Core.Path.{◌≡◌, refl}
use mathlib.Core.Bool.{Bool, true, false}
use mathlib.Core.Logic.{◌⊎◌, inl, inr}
use native.Mathlib.Omega.{arith}

-- The first four are the classes that the MSC_THROW macros of include/Logger.hpp throw.
-- `json_error` is an exception of the JSON library (a `get<T>()` of a value of another type), and
-- `undefined` is a read that C++ leaves undefined, such as `operator[]` of a `const` value at a
-- key that is missing. `foreign_error` is an exception of any other class, which the listeners of an
-- application may throw.
pub data Error : Type 0 where
  plain_error type_error unsupported_error invalid_state_error : String → Error
  json_error undefined foreign_error : Error

pub data Result {ℓ} (A : Type ℓ) : Type ℓ where
  ok : A → Result A
  err : Error → Result A

infixl 5 ◌>>=◌ ◌>>◌
abbrev pub ◌>>=◌ {ℓ κ} : {A : Type ℓ} {B : Type κ} → Result A → (A → Result B) → Result B
err thrown >>= next = err thrown
ok value >>= next = next value

abbrev pub ◌>>◌ {ℓ} : {B : Type ℓ} → Result (Unit {0}) → Result B → Result B
m >> k = m >>= λ _. k

-- `if (!condition) MSC_THROW_TYPE_ERROR(message);`
abbrev pub check : Bool → String → Result (Unit {0})
check true message = ok tt
check false message = err (type_error message)

-- The same with an error of another class.
abbrev pub require : Bool → Error → Result (Unit {0})
require true e = ok tt
require false e = err e

-- `catch (MediaSoupClientError& error)`
abbrev pub is_media_soup_error : Error → Bool
is_media_soup_error json_error = false
is_media_soup_error undefined = false
is_media_soup_error foreign_error = false
is_media_soup_error _ = true

-- The parts of a successful sequence.
pub >>=-eq-ok {ℓ κ} :
    {A : Type ℓ} {B : Type κ} (call : Result A) (rest : A → Result B) {last : B}
    → (call >>= rest) ≡ ok last
    → (value : A) × (call ≡ ok value) × (rest value ≡ ok last)
>>=-eq-ok (ok value) rest returns = (value, refl, returns)
>>=-eq-ok (err thrown) rest returns = ground arith

pub Result-cases {ℓ} :
    {A : Type ℓ} (m : Result A) → ((e : Error) × (m ≡ err e)) ⊎ ((a : A) × (m ≡ ok a))
Result-cases (ok a) = inr (a, refl)
Result-cases (err e) = inl (e, refl)

-- A check that stands before the rest of a successful sequence has passed.
pub check-eq-ok {ℓ} :
    {B : Type ℓ} (passed : Bool) (message : String) (rest : Result B) {b : B}
    → (check passed message >> rest) ≡ ok b
    → (passed ≡ true) × (rest ≡ ok b)
check-eq-ok true message rest h = (refl, h)
check-eq-ok false message rest h = ground arith

pub ok-injective {ℓ} : {A : Type ℓ} {a b : A} → ok a ≡ ok b → a ≡ b
ok-injective h = cc

abbrev pub value_or {ℓ} : {A : Type ℓ} → A → Result A → A
value_or default (ok a) = a
value_or default (err _) = default

pub require-eq-ok {ℓ} :
    {B : Type ℓ} (passed : Bool) (e : Error) (rest : Result B) {last : B}
    → (require passed e >> rest) ≡ ok last
    → (passed ≡ true) × (rest ≡ ok last)
require-eq-ok true e rest returns = (refl, returns)
require-eq-ok false e rest returns = ground arith
