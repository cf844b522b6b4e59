-- ===== src/Common/Results.antt =====
-- Exceptions: what is thrown, and the result of code that may throw.
use Prim.Native.Nat.{ℕ}
use Prim.Native.String.{String}
use mathlib.Core.Path.{◌≡◌, refl}
use mathlib.Core.Logic.{◌⊎◌, inl, inr}
use mathlib.Core.Option.{Option, none}
use graphqlade.Common.Values.{Value}

-- `negsuc n` is -(n + 1); the codes that are compared are naturals and -1.
pub data ℤ : Type 0 where
  pos : ℕ → ℤ
  negsuc : ℕ → ℤ

-- The classes of errors that the code tells apart.
pub data ErrorClass : Type 0 where
  plain type_error syntax_error graphql_error request_error : ErrorClass

pub record Error : Type 0 where
  pub class : ErrorClass
  pub message : String
  pub code : Option ℤ

-- Any value can be thrown.
pub data Thrown : Type 0 where
  error : Error → Thrown
  value : Value → Thrown

-- What a call gives: the value that it returns, or what it throws.
pub data Result {ℓ} (Answer : Type ℓ) : Type ℓ where
  ok : Answer → Result Answer
  thrown : Thrown → Result Answer

module _ {ℓ κ} {X : Type ℓ} {Y : Type κ} where
  infixl 5 ◌>>=◌
  abbrev pub ◌>>=◌ : Result X → (X → Result Y) → Result Y
  ok x >>= next = next x
  thrown t >>= next = thrown t

  -- If a sequence returns, its first part returned and so did the rest.
  pub bind-eq-ok :
      (first : Result X) (next : X → Result Y) {y : Y}
      → (first >>= next) ≡ ok y
      → (x : X) × (first ≡ ok x) × (next x ≡ ok y)
  bind-eq-ok (thrown t) next returned = cc
  bind-eq-ok (ok x) next returned = (x, refl, returned)

infixl 5 ◌>>◌
abbrev pub ◌>>◌ {κ} : {Y : Type κ} → Result (Unit {0}) → Result Y → Result Y
first >> next = first >>= λ done. next

pub Result-cases {ℓ} :
    {Answer : Type ℓ} (result : Result Answer)
    → ((answer : Answer) × (result ≡ ok answer)) ⊎ ((t : Thrown) × (result ≡ thrown t))
Result-cases (thrown t) = inr (t, refl)
Result-cases (ok answer) = inl (answer, refl)

-- `throw new TypeError(message)`
abbrev pub throw_type_error {ℓ} : {A : Type ℓ} → String → Result A
throw_type_error message =
    thrown (error (record { class = ErrorClass.type_error; message = message; code = none }))

-- `throw new Error(message)`
abbrev pub plain_error : String → Error
plain_error message = record { class = ErrorClass.plain; message = message; code = none }
