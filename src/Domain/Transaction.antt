-- ===== src/Domain/Transaction.antt =====
-- domain/entities/transaction.py and aggregates/payment_transaction.py. A method that mutates
-- its transaction returns the new record. `touch` takes the time that `_ts()` reads; of the
-- two timestamps only `updated_at` is read anywhere.
pub mod Payment
use flower_vending_system.Prelude.{
  ℕ, ◌-◌, Bool, true, false, not, ◌&&◌, Option, none, some, ltb, if◌then◌else◌,
}
use flower_vending_system.Prelude.Result.{
  Result, ok, err, map_ok, raise_when, invariant_violation, payment_session_unavailable,
}
use flower_vending_system.Domain.Amount.{Amount, zero_amount, default_currency, lt_amount, is_zero}
use flower_vending_system.Domain.Session.{
  PaymentSession, new_session, start_acceptance, add_stacked_bill, cancel_session, complete_session,
}
use flower_vending_system.Domain.Reserve.{ChangeReserve}
use flower_vending_system.Domain.Statuses.{
  TransactionStatus, PaymentStatus, PayoutStatus, DispenseStatus, DeliveryStatus, RecoveryStatus,
  is_confirmed, is_dispensed,
}

pub record Transaction : Type 0 where
  pub transaction_id : ℕ
  pub correlation_id : ℕ
  pub product_id : ℕ
  pub slot_id : ℕ
  pub price : Amount
  pub status : TransactionStatus
  pub accepted_amount : Amount
  pub change_due : Amount
  pub payment_status : PaymentStatus
  pub payout_status : PayoutStatus
  pub dispense_status : DispenseStatus
  pub delivery_status : DeliveryStatus
  pub recovery_status : RecoveryStatus
  pub payment_session : Option PaymentSession
  pub change_reserve : Option ChangeReserve
  pub updated_at : ℕ

-- `Transaction(...)` with its defaults.
abbrev pub new_transaction : ℕ → ℕ → ℕ → ℕ → Amount → ℕ → Transaction
new_transaction tid cid pid sid price now = record {
  transaction_id = tid;
  correlation_id = cid;
  product_id = pid;
  slot_id = sid;
  price = price;
  status = TransactionStatus.created;
  accepted_amount = zero_amount default_currency;
  change_due = zero_amount default_currency;
  payment_status = PaymentStatus.pending;
  payout_status = PayoutStatus.not_required;
  dispense_status = DispenseStatus.not_started;
  delivery_status = DeliveryStatus.not_started;
  recovery_status = RecoveryStatus.none;
  payment_session = none;
  change_reserve = none;
  updated_at = now;
}

abbrev pub attach_payment_session : PaymentSession → ℕ → Transaction → Transaction
attach_payment_session s now t = record t {
  payment_session = some s;
  status = TransactionStatus.accepting_cash;
  payment_status = PaymentStatus.accepting;
  updated_at = now;
}

-- `PurchaseTransactionAggregate(transaction).start_cash_session()`
abbrev pub start_session : ℕ → Transaction → Transaction
start_session now t = attach_payment_session (start_acceptance (new_session t.transaction_id)) now t

abbrev pub attach_change_reserve : ChangeReserve → ℕ → Transaction → Transaction
attach_change_reserve r now t = record t {
  change_reserve = some r;
  payout_status = PayoutStatus.reserved;
  updated_at = now;
}

abbrev pub with_session : PaymentSession → ℕ → Transaction → Transaction
with_session s now t = record t {
  payment_session = some s;
  accepted_amount = s.accepted_amount;
  updated_at = now;
}

abbrev pub stack_into : Option PaymentSession → ℕ → ℕ → Transaction → Result Transaction
stack_into none bill now t = err payment_session_unavailable
stack_into (some s) bill now t = map_ok (λ s'. with_session s' now t) (add_stacked_bill bill s)

unfoldable pub record_stacked_cash : ℕ → ℕ → Transaction → Result Transaction
record_stacked_cash bill now t = stack_into t.payment_session bill now t

abbrev map_session :
    (PaymentSession → PaymentSession) → Option PaymentSession → Option PaymentSession
map_session f none = none
map_session f (some s) = some (f s)

-- The part of `confirm_payment` behind the guard, where `accepted_amount >= price`.
abbrev pub confirmed_transaction : ℕ → Transaction → Transaction
confirmed_transaction now t =
    let due : Amount = record {
      minor_units = t.accepted_amount.minor_units - t.price.minor_units;
      currency = t.price.currency;
    } in
    record t {
      payment_status = PaymentStatus.confirmed;
      status = TransactionStatus.payment_accepted;
      payment_session = map_session complete_session t.payment_session;
      change_due = due;
      payout_status = if is_zero due then PayoutStatus.not_required else t.payout_status;
      updated_at = now;
    }

abbrev pub confirm_unless_short : Result Bool → ℕ → Transaction → Result Transaction
confirm_unless_short (err e) now t = err e
confirm_unless_short (ok true) now t = err invariant_violation
confirm_unless_short (ok false) now t = ok (confirmed_transaction now t)

unfoldable pub confirm_payment : ℕ → Transaction → Result Transaction
confirm_payment now t = confirm_unless_short (lt_amount t.accepted_amount t.price) now t

abbrev pub mark_change_pending : ℕ → Transaction → Transaction
mark_change_pending now t = record t {
  payout_status = PayoutStatus.pending;
  status = TransactionStatus.dispensing_change;
  updated_at = now;
}

abbrev pub mark_change_dispensed : ℕ → Transaction → Transaction
mark_change_dispensed now t = record t { payout_status = PayoutStatus.dispensed; updated_at = now }

abbrev pub mark_change_partial : ℕ → Transaction → Transaction
mark_change_partial now t = record t {
  payout_status = PayoutStatus.partial;
  status = TransactionStatus.ambiguous;
  recovery_status = RecoveryStatus.pending;
  updated_at = now;
}

unfoldable pub authorize_vend : ℕ → Transaction → Result Transaction
authorize_vend now t = raise_when (not (is_confirmed t.payment_status)) invariant_violation (
    raise_when (ltb 0 t.change_due.minor_units && not (is_dispensed t.payout_status))
      invariant_violation
      (ok (record t {
        dispense_status = DispenseStatus.authorized;
        status = TransactionStatus.dispensing_product;
        updated_at = now;
      })))

abbrev pub mark_product_dispensed : ℕ → Transaction → Transaction
mark_product_dispensed now t = record t {
  dispense_status = DispenseStatus.dispensed;
  status = TransactionStatus.opening_delivery_window;
  updated_at = now;
}

abbrev pub mark_window_opened : ℕ → Transaction → Transaction
mark_window_opened now t = record t {
  delivery_status = DeliveryStatus.window_opened;
  status = TransactionStatus.waiting_for_customer_pickup;
  updated_at = now;
}

abbrev pub confirm_pickup : ℕ → Transaction → Transaction
confirm_pickup now t = record t {
  delivery_status = DeliveryStatus.pickup_confirmed;
  status = TransactionStatus.closing_delivery_window;
  updated_at = now;
}

abbrev pub mark_window_closed : ℕ → Transaction → Transaction
mark_window_closed now t = record t {
  delivery_status = DeliveryStatus.window_closed;
  status = TransactionStatus.completed;
  updated_at = now;
}

abbrev pub mark_pickup_timed_out_window_closed : ℕ → Transaction → Transaction
mark_pickup_timed_out_window_closed now t = record t {
  delivery_status = DeliveryStatus.window_closed;
  status = TransactionStatus.pickup_timed_out;
  recovery_status = RecoveryStatus.manual_review;
  updated_at = now;
}

abbrev pub cancel : ℕ → Transaction → Transaction
cancel now t = record t {
  status = TransactionStatus.cancelled;
  payment_status = PaymentStatus.cancelled;
  payment_session = map_session cancel_session t.payment_session;
  updated_at = now;
}

abbrev pub mark_faulted : ℕ → Transaction → Transaction
mark_faulted now t = record t {
  status = TransactionStatus.faulted;
  recovery_status = RecoveryStatus.pending;
  updated_at = now;
}

abbrev pub mark_recovery_pending : ℕ → Transaction → Transaction
mark_recovery_pending now t = record t {
  recovery_status = RecoveryStatus.pending;
  updated_at = now;
}

abbrev pub mark_ambiguous : ℕ → Transaction → Transaction
mark_ambiguous now t = record t {
  status = TransactionStatus.ambiguous;
  recovery_status = RecoveryStatus.manual_review;
  updated_at = now;
}
