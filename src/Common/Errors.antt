-- ===== src/Common/Errors.antt =====
-- Failures as values: common/common/errors.py, with the two database errors that the services let
-- through, and what a flush checks of an Integer column.
use inventory_management_sys.Prelude.{
  ℕ, ◌≤◌, ◌≡◌, refl, ◌⊎◌, inl, inr, ℤ, pos, negsuc, ltb, if◌then◌else◌, arith,
}

-- The subclasses of DomainError; then SQLAlchemy's IntegrityError (a CHECK or UNIQUE constraint),
-- DataError (an integer out of the column's range) and PendingRollbackError, Python's KeyError and
-- ValueError, and any error of the Redis client.
pub data Error : Type 0 where
  not_found conflict validation unauthorized forbidden rate_limited : Error
  invalid_state_transition : Error
  integrity_error data_error pending_rollback key_error value_error redis_error : Error

-- The HTTP status of each class; InvalidStateTransition inherits that of ConflictError. Any other
-- exception is a 500.
unfoldable pub status_code : Error → ℕ
status_code Error.not_found = 404
status_code Error.conflict = 409
status_code Error.validation = 422
status_code Error.unauthorized = 401
status_code Error.forbidden = 403
status_code Error.rate_limited = 429
status_code Error.invalid_state_transition = 409
status_code _ = 500

pub data Result {ℓ} (A : Type ℓ) : Type ℓ where
  ok : A → Result A
  err : Error → Result A

infixl 5 ◌>>=◌
abbrev pub ◌>>=◌ {ℓ κ} : {A : Type ℓ} {B : Type κ} → Result A → (A → Result B) → Result B
ok a >>= f = f a
err e >>= f = err e

-- To split on a computed result and keep the equation.
pub Result-cases {ℓ} :
    {A : Type ℓ} (m : Result A) → ((a : A) × (m ≡ ok a)) ⊎ ((e : Error) × (m ≡ err e))
Result-cases (ok a) = inl (a, refl)
Result-cases (err e) = inr (e, refl)

-- The largest value of an Integer column.
abbrev pub int_max : ℕ
int_max = 2147483647

-- What a flush makes of a value for an Integer column with CHECK (column >= 0): the driver refuses
-- what 32 bits do not hold, and the constraint what is below 0.
unfoldable pub column : ℤ → Result ℕ
column (negsuc n) = if ltb int_max n then err Error.data_error else err Error.integrity_error
column (pos n) = if ltb int_max n then err Error.data_error else ok n

-- A value that the flush accepts is the one that is stored, and it is in range.
pub column-eq-ok : (x : ℤ) (n : ℕ) → column x ≡ ok n → (x ≡ pos n) × (n ≤ int_max)
unfolding column
column-eq-ok (pos m) n e = ground arith
column-eq-ok (negsuc m) n e = absurd (ground arith)

-- `Database.transaction`: commit on success, roll back on any exception.
unfoldable pub transaction {ℓ κ} :
    {S : Type ℓ} {A : Type κ} → (S → Result (A × S)) → S → Result A × S
transaction work s = elim (work s) [ ok (a, t) ↦ (ok a, t) | err e ↦ (err e, s) ]
