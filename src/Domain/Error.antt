-- ===== src/Domain/Error.antt =====
-- The exceptions of finassist/domain (applications/exceptions.py, documents/exceptions.py,
-- shared/money.py), with those of Python, SQLAlchemy and the object store that reach a caller,
-- and a computation that returns or raises one.
use loan_credit.Prelude.{ℕ, ◌≡◌, refl, Bool, true, false, String}
use loan_credit.Prelude.Int.{ℤ}
use loan_credit.Domain.Status.{ApplicationStatus}

pub data Error : Type 0 where
  -- applications/exceptions.py
  illegal_state_transition : ApplicationStatus → ApplicationStatus → Error
  concurrency_conflict : String → ℕ → ℕ → Error
  invalid_application_data : String → Error
  application_not_found : String → Error
  product_not_found : String → Error
  product_rejected_request : String → ℤ → ℤ → Error
  no_active_workflow : String → Error
  duplicate_request : String → String → Error
  -- documents/exceptions.py
  unsupported_document_type : String → Error
  malware_detected : String → Error
  document_too_large : ℕ → ℕ → Error
  page_limit_exceeded : ℕ → ℕ → Error
  document_not_found : String → Error
  extraction_failed : String → String → Error
  -- shared/money.py
  unsupported_currency : String → Error
  currency_mismatch : String → String → Error
  -- builtins, decimal, SQLAlchemy and the object store
  value_error : String → Error
  lookup_error : String → Error
  invalid_operation : Error
  overflow_error : Error
  integrity_error : String → Error
  row_level_security : String → Error
  object_not_found : String → Error
  timeout_error : Error

pub data Result (Value : Type 0) : Type 0 where
  err : Error → Result Value
  ok : Value → Result Value

-- `if condition: raise error`
abbrev pub raise_if : Bool → Error → Result (Unit {0})
raise_if false error = ok tt
raise_if true error = err error

infixl 5 ◌>>=◌ ◌>>◌
abbrev pub ◌>>=◌ : {Value Next : Type 0} → Result Value → (Value → Result Next) → Result Next
err raised >>= next = err raised
ok value >>= next = next value

pub >>=-eq-ok :
    {Value Next : Type 0} (m : Result Value) (next : Value → Result Next) {result : Next}
    → (m >>= next) ≡ ok result
    → (value : Value) × (m ≡ ok value) × (next value ≡ ok result)
>>=-eq-ok (err raised) next h = cc
>>=-eq-ok (ok value) next h = (value, refl, h)

abbrev pub ◌>>◌ : {Next : Type 0} → Result (Unit {0}) → Result Next → Result Next
check >> next = check >>= λ _. next

pub ok-injective : {Value : Type 0} {a b : Value} → ok a ≡ ok b → a ≡ b
ok-injective e = cc

pub err-ne-ok : {Value : Type 0} {a : Value} {e : Error} → err e ≡ ok a → ⊥
err-ne-ok h = cc
