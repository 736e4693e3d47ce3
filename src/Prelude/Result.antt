-- ===== src/Prelude/Result.antt =====
-- Exceptions as values. The constructors of `Error` are the exception classes that the
-- modelled code raises (domain/exceptions, devices/exceptions and Python's own).
use mathlib.Core.Bool.{Bool, true, false}

pub data Error : Type 0 where
  value_error key_error lookup_error runtime_error zero_division : Error
  invariant_violation concurrency_conflict sale_blocked : Error
  product_unavailable slot_unavailable inventory_mismatch : Error
  payment_session_unavailable payment_cancelled validator_unavailable : Error
  change_unavailable partial_payout manual_intervention_required : Error
  device_error exception_group base_exception : Error

pub data Result {ℓ} (A : Type ℓ) : Type ℓ where
  ok : A → Result A
  err : Error → Result A

abbrev pub map_ok {ℓ κ} : {A : Type ℓ} {B : Type κ} → (A → B) → Result A → Result B
map_ok f (ok a) = ok (f a)
map_ok f (err e) = err e

-- A condition under which the code raises.
abbrev pub raise_when {ℓ} : {A : Type ℓ} → Bool → Error → Result A → Result A
raise_when true e r = err e
raise_when false e r = r

-- One call after another: an exception of the first ends both.
infixl 5 ◌>>=◌
abbrev pub ◌>>=◌ {ℓ κ} : {A : Type ℓ} {B : Type κ} → Result A → (A → Result B) → Result B
ok a >>= f = f a
err e >>= f = err e
