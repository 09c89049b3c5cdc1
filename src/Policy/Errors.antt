-- ===== src/Policy/Errors.antt =====
-- The exceptions of packages/policy-engine/agentguard_policy/__init__.py. A `value_error` carries
-- the fixed part of its message; `InvalidOperation` is always turned into a `ValueError`. `uncaught`
-- is any exception that neither `validate_policy` nor `evaluate` catches: an `AttributeError`, and an
-- `IndexError` of the YAML reader, for example.
use aiagentguard.Prelude.{String, Bool, true, false, ◌≡◌, refl, ◌⊎◌, inl, inr}

pub data Error : Type 0 where
  value_error : String → Error
  type_error : Error
  key_error : Error
  uncaught : Error

-- What a call returns or raises.
pub data Result {ℓ} (Value : Type ℓ) : Type ℓ where
  err : Error → Result Value
  ok : Value → Result Value

-- `if not …: raise ValueError(message)`.
abbrev pub require : (test : Bool) (message : String) → Result (Unit {0})
require test message = elim test [ false ↦ err (value_error message) | true ↦ ok tt ]

-- A statement after another; what the first one raises is not caught here.
infixl 5 ◌>>=◌ ◌>>◌
abbrev pub ◌>>=◌ {ℓ κ} :
    {Before : Type ℓ} {After : Type κ} → Result Before → (Before → Result After) → Result After
err raised >>= next = err raised
ok value >>= next = next value

abbrev pub ◌>>◌ {κ} : {After : Type κ} → Result (Unit {0}) → Result After → Result After
first >> next = first >>= λ done. next

pub Result-cases {ℓ} :
    {A : Type ℓ} (r : Result A) → ((a : A) × (r ≡ ok a)) ⊎ ((e : Error) × (r ≡ err e))
Result-cases (err e) = inr (e, refl)
Result-cases (ok a) = inl (a, refl)

-- A sequence that returns has a first part that returns.
pub >>=-eq-ok {ℓ κ} :
    {Before : Type ℓ} {After : Type κ} (m : Result Before) (next : Before → Result After)
    {result : After}
    → (m >>= next) ≡ ok result
    → (a : Before) × (m ≡ ok a) × (next a ≡ ok result)
>>=-eq-ok (err raised) next returned = cc
>>=-eq-ok (ok a) next returned = (a, refl, returned)
