-- ===== src/Prelude/Outcomes.antt =====
-- How a call of the program ends: with a value, with an `http::Error`, or with a panic.
use mathlib.Core.Path.{◌≡◌, refl}
use mathlib.Core.Option.{Option, none, some}

-- The causes of the `http::Error` that a builder or a parser of the http crate gives.
pub data HttpError : Type 0 where
  invalid_status invalid_uri invalid_header_value : HttpError

pub data Outcome {ℓ} (Value : Type ℓ) : Type ℓ where
  panic : Outcome Value
  err : HttpError → Outcome Value
  ok : Value → Outcome Value

module _ {ℓ κ} {V : Type ℓ} {W : Type κ} where
  infixl 5 ◌>>=◌ ◌>>◌
  abbrev pub ◌>>=◌ : Outcome V → (V → Outcome W) → Outcome W
  panic >>= next = panic
  err cause >>= next = err cause
  ok value >>= next = next value

  abbrev pub ◌>>◌ : Outcome V → Outcome W → Outcome W
  first >> second = first >>= λ ignored. second

  -- The parts of a bind that returned a value.
  pub >>=-eq-ok :
      (first : Outcome V) (next : V → Outcome W) {w : W}
      → (first >>= next) ≡ ok w
      → (v : V) × (first ≡ ok v) × (next v ≡ ok w)
  >>=-eq-ok panic next returned = cc
  >>=-eq-ok (err cause) next returned = cc
  >>=-eq-ok (ok value) next returned = (value, refl, returned)

module _ {ℓ} {A : Type ℓ} where
  -- `Result::expect` on an `http::Error`.
  abbrev pub expect : Outcome A → Outcome A
  expect (ok a) = ok a
  expect (err e) = panic
  expect panic = panic

  -- `Option::unwrap` and `Option::expect`.
  abbrev pub unwrap : Option A → Outcome A
  unwrap none = panic
  unwrap (some a) = ok a

  -- `Option::ok_or`, as `?` uses it.
  abbrev pub ok_or : HttpError → Option A → Outcome A
  ok_or e none = err e
  ok_or e (some a) = ok a

pub ok-injective {ℓ} : {A : Type ℓ} {a b : A} → Outcome.ok a ≡ ok b → a ≡ b
ok-injective e = cc

-- The call does not panic; an error that it returns, and a value, satisfy a predicate each.
pub data Ensures {ℓ} {V : Type ℓ} (E : HttpError → Type 0) (P : V → Type 0)
    : Outcome V → Type ℓ where
  returned : {v : V} → P v → Ensures E P (ok v)
  failed : {cause : HttpError} → E cause → Ensures E P (err cause)

-- The call returns a value that satisfies a predicate.
pub record Yields {ℓ} {V : Type ℓ} (P : V → Type 0) (m : Outcome V) : Type ℓ where
  pub value : V
  pub result : m ≡ ok value
  pub holds : P value

module _ {ℓ} {V : Type ℓ} {E : HttpError → Type 0} {P : V → Type 0} where
  pub Ensures-Yields : {m : Outcome V} → Yields P m → Ensures E P m
  Ensures-Yields y = rw (y.result) (returned y.holds)

pub Yields-expect {ℓ} :
    {V : Type ℓ} {P : V → Type 0} {m : Outcome V} → Yields P m → Yields P (expect m)
Yields-expect y = record { value = y.value; result = rw (y.result); holds = y.holds }

-- The rules of `do`: the first call, then what follows it.
module _ {ℓ κ} {V : Type ℓ} {W : Type κ} {P : V → Type 0} {Q : W → Type 0} where
  pub Ensures-bind :
      {E : HttpError → Type 0} {m : Outcome V} (next : V → Outcome W)
      → Ensures E P m
      → ((v : V) → P v → Ensures E Q (next v))
      → Ensures E Q (m >>= next)
  Ensures-bind next (failed e) k = failed e
  Ensures-bind next (returned h) k = k _ h

  pub Yields-bind :
      {m : Outcome V} (next : V → Outcome W)
      → Yields P m
      → ((v : V) → P v → Yields Q (next v))
      → Yields Q (m >>= next)
  Yields-bind next y k = rw (y.result) (k y.value y.holds)
