-- ===== src/Persistence/Texts.antt =====
-- The texts that stand for the statuses in the database: the values of the enumerations of
-- domain/entities, and the look-up of an enumeration's member by its value.
use Prim.Native.String.{String}
use text.Mathlib.Text.{◌==◌}
use flower_vending_system.Prelude.{List, [], ◌∷◌, ◌≡◌, refl, if◌then◌else◌}
use flower_vending_system.Prelude.Result.{Result, ok, err, value_error}
use flower_vending_system.Domain.Statuses.{
  TransactionStatus, PaymentStatus, PayoutStatus, DispenseStatus, DeliveryStatus, RecoveryStatus,
}
use flower_vending_system.Domain.Session.{SessionStatus}
use flower_vending_system.Domain.Reserve.{ReserveStatus}

-- `Enum(text)`: the first member with that value, else ValueError.
abbrev find_member : {A : Type 0} → (A → String) → String → List A → Result A
find_member value text [] = err value_error
find_member value text (a ∷ members) =
    if value a == text then ok a else find_member value text members

abbrev pub transaction_status_value : TransactionStatus → String
transaction_status_value TransactionStatus.created = "created"
transaction_status_value TransactionStatus.checking_availability = "checking_availability"
transaction_status_value TransactionStatus.checking_change = "checking_change"
transaction_status_value TransactionStatus.waiting_for_payment = "waiting_for_payment"
transaction_status_value TransactionStatus.accepting_cash = "accepting_cash"
transaction_status_value TransactionStatus.payment_accepted = "payment_accepted"
transaction_status_value TransactionStatus.dispensing_change = "dispensing_change"
transaction_status_value TransactionStatus.dispensing_product = "dispensing_product"
transaction_status_value TransactionStatus.opening_delivery_window = "opening_delivery_window"
transaction_status_value TransactionStatus.waiting_for_customer_pickup =
    "waiting_for_customer_pickup"
transaction_status_value TransactionStatus.closing_delivery_window = "closing_delivery_window"
transaction_status_value TransactionStatus.pickup_timed_out = "pickup_timed_out"
transaction_status_value TransactionStatus.completed = "completed"
transaction_status_value TransactionStatus.cancelled = "cancelled"
transaction_status_value TransactionStatus.faulted = "faulted"
transaction_status_value TransactionStatus.ambiguous = "ambiguous"

unfoldable pub parse_transaction_status : String → Result TransactionStatus
parse_transaction_status text = find_member transaction_status_value text (
    TransactionStatus.created ∷ TransactionStatus.checking_availability
    ∷ TransactionStatus.checking_change ∷ TransactionStatus.waiting_for_payment
    ∷ TransactionStatus.accepting_cash ∷ TransactionStatus.payment_accepted
    ∷ TransactionStatus.dispensing_change ∷ TransactionStatus.dispensing_product
    ∷ TransactionStatus.opening_delivery_window ∷ TransactionStatus.waiting_for_customer_pickup
    ∷ TransactionStatus.closing_delivery_window ∷ TransactionStatus.pickup_timed_out
    ∷ TransactionStatus.completed ∷ TransactionStatus.cancelled ∷ TransactionStatus.faulted
    ∷ TransactionStatus.ambiguous ∷ [])

abbrev pub payment_status_value : PaymentStatus → String
payment_status_value PaymentStatus.pending = "pending"
payment_status_value PaymentStatus.accepting = "accepting"
payment_status_value PaymentStatus.confirmed = "confirmed"
payment_status_value PaymentStatus.cancelled = "cancelled"

unfoldable pub parse_payment_status : String → Result PaymentStatus
parse_payment_status text = find_member payment_status_value text (
    PaymentStatus.pending ∷ PaymentStatus.accepting ∷ PaymentStatus.confirmed
    ∷ PaymentStatus.cancelled ∷ [])

abbrev pub payout_status_value : PayoutStatus → String
payout_status_value PayoutStatus.not_required = "not_required"
payout_status_value PayoutStatus.reserved = "reserved"
payout_status_value PayoutStatus.pending = "pending"
payout_status_value PayoutStatus.dispensed = "dispensed"
payout_status_value PayoutStatus.partial = "partial"
payout_status_value PayoutStatus.failed = "failed"
payout_status_value PayoutStatus.ambiguous = "ambiguous"

unfoldable pub parse_payout_status : String → Result PayoutStatus
parse_payout_status text = find_member payout_status_value text (
    PayoutStatus.not_required ∷ PayoutStatus.reserved ∷ PayoutStatus.pending
    ∷ PayoutStatus.dispensed ∷ PayoutStatus.partial ∷ PayoutStatus.failed ∷ PayoutStatus.ambiguous
    ∷ [])

abbrev pub dispense_status_value : DispenseStatus → String
dispense_status_value DispenseStatus.not_started = "not_started"
dispense_status_value DispenseStatus.authorized = "authorized"
dispense_status_value DispenseStatus.dispensed = "dispensed"
dispense_status_value DispenseStatus.failed = "failed"
dispense_status_value DispenseStatus.ambiguous = "ambiguous"

unfoldable pub parse_dispense_status : String → Result DispenseStatus
parse_dispense_status text = find_member dispense_status_value text (
    DispenseStatus.not_started ∷ DispenseStatus.authorized ∷ DispenseStatus.dispensed
    ∷ DispenseStatus.failed ∷ DispenseStatus.ambiguous ∷ [])

abbrev pub delivery_status_value : DeliveryStatus → String
delivery_status_value DeliveryStatus.not_started = "not_started"
delivery_status_value DeliveryStatus.window_opened = "window_opened"
delivery_status_value DeliveryStatus.pickup_confirmed = "pickup_confirmed"
delivery_status_value DeliveryStatus.window_closed = "window_closed"

unfoldable pub parse_delivery_status : String → Result DeliveryStatus
parse_delivery_status text = find_member delivery_status_value text (
    DeliveryStatus.not_started ∷ DeliveryStatus.window_opened ∷ DeliveryStatus.pickup_confirmed
    ∷ DeliveryStatus.window_closed ∷ [])

abbrev pub recovery_status_value : RecoveryStatus → String
recovery_status_value RecoveryStatus.none = "none"
recovery_status_value RecoveryStatus.pending = "pending"
recovery_status_value RecoveryStatus.manual_review = "manual_review"

unfoldable pub parse_recovery_status : String → Result RecoveryStatus
parse_recovery_status text =
    find_member recovery_status_value text
      (RecoveryStatus.none ∷ RecoveryStatus.pending ∷ RecoveryStatus.manual_review ∷ [])

abbrev pub session_status_value : SessionStatus → String
session_status_value SessionStatus.created = "created"
session_status_value SessionStatus.accepting = "accepting"
session_status_value SessionStatus.cancelled = "cancelled"
session_status_value SessionStatus.completed = "completed"

unfoldable pub parse_session_status : String → Result SessionStatus
parse_session_status text = find_member session_status_value text (
    SessionStatus.created ∷ SessionStatus.accepting ∷ SessionStatus.cancelled
    ∷ SessionStatus.completed ∷ [])

abbrev pub reserve_status_value : ReserveStatus → String
reserve_status_value ReserveStatus.active = "active"
reserve_status_value ReserveStatus.released = "released"
reserve_status_value ReserveStatus.consumed = "consumed"
reserve_status_value ReserveStatus.ambiguous = "ambiguous"

unfoldable pub parse_reserve_status : String → Result ReserveStatus
parse_reserve_status text = find_member reserve_status_value text (
    ReserveStatus.active ∷ ReserveStatus.released ∷ ReserveStatus.consumed ∷ ReserveStatus.ambiguous
    ∷ [])

pub parse_transaction_status-value :
    (s : TransactionStatus) → parse_transaction_status (transaction_status_value s) ≡ ok s
unfolding parse_transaction_status
parse_transaction_status-value TransactionStatus.created = refl
parse_transaction_status-value TransactionStatus.checking_availability = refl
parse_transaction_status-value TransactionStatus.checking_change = refl
parse_transaction_status-value TransactionStatus.waiting_for_payment = refl
parse_transaction_status-value TransactionStatus.accepting_cash = refl
parse_transaction_status-value TransactionStatus.payment_accepted = refl
parse_transaction_status-value TransactionStatus.dispensing_change = refl
parse_transaction_status-value TransactionStatus.dispensing_product = refl
parse_transaction_status-value TransactionStatus.opening_delivery_window = refl
parse_transaction_status-value TransactionStatus.waiting_for_customer_pickup = refl
parse_transaction_status-value TransactionStatus.closing_delivery_window = refl
parse_transaction_status-value TransactionStatus.pickup_timed_out = refl
parse_transaction_status-value TransactionStatus.completed = refl
parse_transaction_status-value TransactionStatus.cancelled = refl
parse_transaction_status-value TransactionStatus.faulted = refl
parse_transaction_status-value TransactionStatus.ambiguous = refl

pub parse_payment_status-value :
    (s : PaymentStatus) → parse_payment_status (payment_status_value s) ≡ ok s
unfolding parse_payment_status
parse_payment_status-value PaymentStatus.pending = refl
parse_payment_status-value PaymentStatus.accepting = refl
parse_payment_status-value PaymentStatus.confirmed = refl
parse_payment_status-value PaymentStatus.cancelled = refl

pub parse_payout_status-value :
    (s : PayoutStatus) → parse_payout_status (payout_status_value s) ≡ ok s
unfolding parse_payout_status
parse_payout_status-value PayoutStatus.not_required = refl
parse_payout_status-value PayoutStatus.reserved = refl
parse_payout_status-value PayoutStatus.pending = refl
parse_payout_status-value PayoutStatus.dispensed = refl
parse_payout_status-value PayoutStatus.partial = refl
parse_payout_status-value PayoutStatus.failed = refl
parse_payout_status-value PayoutStatus.ambiguous = refl

pub parse_dispense_status-value :
    (s : DispenseStatus) → parse_dispense_status (dispense_status_value s) ≡ ok s
unfolding parse_dispense_status
parse_dispense_status-value DispenseStatus.not_started = refl
parse_dispense_status-value DispenseStatus.authorized = refl
parse_dispense_status-value DispenseStatus.dispensed = refl
parse_dispense_status-value DispenseStatus.failed = refl
parse_dispense_status-value DispenseStatus.ambiguous = refl

pub parse_delivery_status-value :
    (s : DeliveryStatus) → parse_delivery_status (delivery_status_value s) ≡ ok s
unfolding parse_delivery_status
parse_delivery_status-value DeliveryStatus.not_started = refl
parse_delivery_status-value DeliveryStatus.window_opened = refl
parse_delivery_status-value DeliveryStatus.pickup_confirmed = refl
parse_delivery_status-value DeliveryStatus.window_closed = refl

pub parse_recovery_status-value :
    (s : RecoveryStatus) → parse_recovery_status (recovery_status_value s) ≡ ok s
unfolding parse_recovery_status
parse_recovery_status-value RecoveryStatus.none = refl
parse_recovery_status-value RecoveryStatus.pending = refl
parse_recovery_status-value RecoveryStatus.manual_review = refl

pub parse_session_status-value :
    (s : SessionStatus) → parse_session_status (session_status_value s) ≡ ok s
unfolding parse_session_status
parse_session_status-value SessionStatus.created = refl
parse_session_status-value SessionStatus.accepting = refl
parse_session_status-value SessionStatus.cancelled = refl
parse_session_status-value SessionStatus.completed = refl

pub parse_reserve_status-value :
    (s : ReserveStatus) → parse_reserve_status (reserve_status_value s) ≡ ok s
unfolding parse_reserve_status
parse_reserve_status-value ReserveStatus.active = refl
parse_reserve_status-value ReserveStatus.released = refl
parse_reserve_status-value ReserveStatus.consumed = refl
parse_reserve_status-value ReserveStatus.ambiguous = refl
