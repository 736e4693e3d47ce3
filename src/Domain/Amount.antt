-- ===== src/Domain/Amount.antt =====
-- domain/value_objects/amount.py and currency.py. A currency is the number of its normalised
-- code; 0 stands for the blank code, which `Currency` refuses, and 1 for the default, RUB.
use flower_vending_system.Prelude.{ℕ, ◌+◌, ◌-◌, Bool, not, ltb, leb, ◌==◌}
use flower_vending_system.Prelude.Int.{ℤ, pos, negsuc}
use flower_vending_system.Prelude.Result.{value_error, Result, ok, err, raise_when}

abbrev pub default_currency : ℕ
default_currency = 1

pub record Amount : Type 0 where
  pub minor_units : ℕ
  pub currency : ℕ

-- `Currency(code)`
abbrev pub make_currency : ℕ → Result ℕ
make_currency code = raise_when (code == 0) value_error (ok code)

-- `Amount(minor_units, currency)`: `__post_init__` refuses a negative number.
abbrev pub make_amount : ℤ → ℕ → Result Amount
make_amount (pos n) c = ok (record { minor_units = n; currency = c })
make_amount (negsuc n) c = err value_error

abbrev pub zero_amount : ℕ → Amount
zero_amount c = record { minor_units = 0; currency = c }

abbrev pub require_same_currency {ℓ} : {A : Type ℓ} → Amount → Amount → Result A → Result A
require_same_currency a b r = raise_when (not (a.currency == b.currency)) value_error r

abbrev pub add_amount : Amount → Amount → Result Amount
add_amount a b =
    require_same_currency a b
      (ok (record { minor_units = a.minor_units + b.minor_units; currency = a.currency }))

abbrev pub sub_amount : Amount → Amount → Result Amount
sub_amount a b = require_same_currency a b (
    raise_when (ltb a.minor_units b.minor_units) value_error
      (ok (record { minor_units = a.minor_units - b.minor_units; currency = a.currency })))

-- `a < b` and `a >= b`
abbrev pub lt_amount : Amount → Amount → Result Bool
lt_amount a b = require_same_currency a b (ok (ltb a.minor_units b.minor_units))

abbrev pub ge_amount : Amount → Amount → Result Bool
ge_amount a b = require_same_currency a b (ok (leb b.minor_units a.minor_units))

abbrev pub is_zero : Amount → Bool
is_zero a = a.minor_units == 0
