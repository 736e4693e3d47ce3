-- ===== src/App/Recovery/Assess.antt =====
-- What `assess` of app/orchestrators/recovery_manager.py allows.
use flower_vending_system.Prelude.{ℕ, Bool, true, false, not, ◌&&◌, ◌||◌, ◌≡◌, arith}
use flower_vending_system.Domain.Statuses.{
  TransactionStatus, PaymentStatus, PayoutStatus, is_confirmed, is_terminal,
}
use flower_vending_system.Domain.Transaction.{Transaction}
use flower_vending_system.App.Recovery.{assess, assess_status, assess_payment, is_cancel_safe}

-- A side effect of the transaction is in doubt.
abbrev pub is_doubtful : TransactionStatus → Bool
is_doubtful TransactionStatus.pickup_timed_out = true
is_doubtful TransactionStatus.ambiguous = true
is_doubtful TransactionStatus.faulted = true
is_doubtful _ = false

-- An interrupted transaction is cancelled by the machine itself exactly if it is open, no side
-- effect is in doubt and its payment is not confirmed; an operator is required exactly if it is
-- open and a side effect is in doubt or the payment is confirmed.
pub assess_lem :
    (t : Transaction)
    → (is_cancel_safe (assess t).action ≡ (
        not (is_terminal t.status)
        && (not (is_doubtful t.status) && not (is_confirmed t.payment_status))))
      × ((assess t).operator_required
          ≡ (not (is_terminal t.status) && (is_doubtful t.status || is_confirmed t.payment_status)))
unfolding assess assess_status assess_payment
assess_lem t = by_status t.transaction_id t.status t.payment_status t.payout_status
  where
    by_status :
        (n : ℕ) (s : TransactionStatus) (p : PaymentStatus) (o : PayoutStatus)
        → (is_cancel_safe (assess_status n s (assess_payment n p o)).action
            ≡ (not (is_terminal s) && (not (is_doubtful s) && not (is_confirmed p))))
          × ((assess_status n s (assess_payment n p o)).operator_required
              ≡ (not (is_terminal s) && (is_doubtful s || is_confirmed p)))
    by_status n s p o = ground arith
