-- ===== src/Domain/Transaction/Payment.antt =====
-- When `confirm_payment` of domain/entities/transaction.py confirms.
use flower_vending_system.Prelude.{ℕ, ◌+◌, ◌≤◌, ◌<◌, ◌≡◌, ◌≢◌, ◌⊎◌, arith}
use flower_vending_system.Prelude.Result.{ok, err, invariant_violation, value_error}
use flower_vending_system.Domain.Transaction.{Transaction, confirmed_transaction, confirm_payment}

-- A confirmation succeeds exactly if the accepted money is in the price's currency and covers the
-- price; then the accepted amount is the price and the change that is due. In another currency it
-- raises ValueError, however much it is; in the price's, when the money falls short, the invariant's
-- violation.
pub confirm_payment_lem :
    (at : ℕ) (t : Transaction)
    → (t.accepted_amount.currency ≡ t.price.currency)
        × (t.price.minor_units ≤ t.accepted_amount.minor_units)
        × (confirm_payment at t ≡ ok (confirmed_transaction at t))
        × (t.accepted_amount.minor_units
            ≡ t.price.minor_units + (confirmed_transaction at t).change_due.minor_units)
      ⊎ (t.accepted_amount.currency ≢ t.price.currency) × (confirm_payment at t ≡ err value_error)
      ⊎ (t.accepted_amount.currency ≡ t.price.currency)
        × (t.accepted_amount.minor_units < t.price.minor_units)
        × (confirm_payment at t ≡ err invariant_violation)
unfolding confirm_payment
confirm_payment_lem at t = ground arith
