-- ===== src/Prelude/Results.antt =====
-- Python exceptions as values: the exceptions that the modelled code raises or catches, and the
-- result of a computation that may raise.
use mathlib.Core.Path.{◌≡◌, refl}

-- The exception classes that the program can meet, by their Python names.
pub data Exn : Type 0 where
  key_error value_error type_error attribute_error index_error : Exn
  zero_division_error overflow_error invalid_operation : Exn
  integrity_error http_error redis_error : Exn

-- What a computation gives that may raise.
pub data Result {ℓ} (A : Type ℓ) : Type ℓ where
  ok : A → Result A
  err : Exn → Result A

module _ {κ ℓ} {A : Type ℓ} {B : Type κ} where
  -- An exception ends the computation.
  infixl 5 ◌>>=◌
  abbrev pub ◌>>=◌ : Result A → (A → Result B) → Result B
  err e >>= next = err e
  ok a >>= next = next a

  -- A computation in two steps that returned has a first step that returned.
  pub >>=-eq-ok :
      (first : Result A) (next : A → Result B) {b : B}
      → (first >>= next) ≡ ok b
      → (value : A) × (first ≡ ok value) × (next value ≡ ok b)
  >>=-eq-ok (err e) next raised = absurd (cc)
  >>=-eq-ok (ok value) next returned = (value, refl, returned)

module _ {κ} {B : Type κ} where
  infixl 5 ◌>>◌
  abbrev pub ◌>>◌ : Result (Unit {0}) → Result B → Result B
  first >> second = first >>= λ _. second

pub ok-injective {ℓ} : {A : Type ℓ} {a b : A} → ok a ≡ ok b → a ≡ b
ok-injective h = cc
