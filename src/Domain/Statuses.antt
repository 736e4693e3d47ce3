-- ===== src/Domain/Statuses.antt =====
-- The status enumerations of domain/entities/transaction.py.
use flower_vending_system.Prelude.{Bool, true, false}

pub data TransactionStatus : Type 0 where
  created checking_availability checking_change waiting_for_payment : TransactionStatus
  accepting_cash payment_accepted dispensing_change dispensing_product : TransactionStatus
  opening_delivery_window waiting_for_customer_pickup closing_delivery_window : TransactionStatus
  pickup_timed_out completed cancelled faulted ambiguous : TransactionStatus

pub data PaymentStatus : Type 0 where
  pending accepting confirmed cancelled : PaymentStatus

pub data PayoutStatus : Type 0 where
  not_required reserved pending dispensed partial failed ambiguous : PayoutStatus

pub data DispenseStatus : Type 0 where
  not_started authorized dispensed failed ambiguous : DispenseStatus

pub data DeliveryStatus : Type 0 where
  not_started window_opened pickup_confirmed window_closed : DeliveryStatus

pub data RecoveryStatus : Type 0 where
  none pending manual_review : RecoveryStatus

-- `status in {COMPLETED, CANCELLED}`
abbrev pub is_terminal : TransactionStatus → Bool
is_terminal TransactionStatus.completed = true
is_terminal TransactionStatus.cancelled = true
is_terminal _ = false

-- `status is WAITING_FOR_CUSTOMER_PICKUP`
abbrev pub is_waiting_for_pickup : TransactionStatus → Bool
is_waiting_for_pickup TransactionStatus.waiting_for_customer_pickup = true
is_waiting_for_pickup _ = false

abbrev pub is_confirmed : PaymentStatus → Bool
is_confirmed PaymentStatus.confirmed = true
is_confirmed _ = false

abbrev pub is_dispensed : PayoutStatus → Bool
is_dispensed PayoutStatus.dispensed = true
is_dispensed _ = false

-- `recovery_status is not NONE`
abbrev pub needs_recovery : RecoveryStatus → Bool
needs_recovery RecoveryStatus.none = false
needs_recovery _ = true
