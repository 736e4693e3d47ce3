-- ===== src/Persistence/Mappers.antt =====
-- infrastructure/persistence/sqlite/mappers.py: entities to rows and back.
pub mod RoundTrip
use Prim.Native.String.{String}
use flower_vending_system.Prelude.{
  ℕ, Bool, true, false, Option, none, some, List, [], ◌∷◌, ◌==◌, leb, if◌then◌else◌,
}
use flower_vending_system.Prelude.Int.{ℤ, pos}
use flower_vending_system.Prelude.Result.{Result, ok, err, map_ok, raise_when, value_error, ◌>>=◌}
use flower_vending_system.Domain.Amount.{Amount, make_amount, make_currency, default_currency}
use flower_vending_system.Domain.Session.{PaymentSession}
use flower_vending_system.Domain.Reserve.{ChangeReserve}
use flower_vending_system.Domain.Transaction.{Transaction}
use flower_vending_system.Domain.Slot.{Slot}
use flower_vending_system.Domain.Status.{MachineStatus, Blocker}
use flower_vending_system.Money.Inventory.{MoneyInventory}
use flower_vending_system.Persistence.Texts.{
  transaction_status_value, parse_transaction_status, payment_status_value, parse_payment_status,
  payout_status_value, parse_payout_status, dispense_status_value, parse_dispense_status,
  delivery_status_value, parse_delivery_status, recovery_status_value, parse_recovery_status,
  session_status_value, parse_session_status, reserve_status_value, parse_reserve_status,
}
use flower_vending_system.Persistence.Records.{
  flag, truth, sort_keys, SessionJson, ReserveJson, TransactionRow, SlotRow, StatusRow, MoneyRow,
}

-- `TransactionId(text)` and the like
abbrev pub make_id : ℕ → Result ℕ
make_id n = raise_when (n == 0) value_error (ok n)

-- `payload.get(key, default)`
abbrev pub get_or {ℓ} : {A : Type ℓ} → A → Option A → A
get_or default none = default
get_or default (some a) = a

-- `Amount(minor_units, Currency(code))`
abbrev pub read_amount : ℤ → ℕ → Result Amount
read_amount units code = make_currency code >>= make_amount units

abbrev pub session_to_json : PaymentSession → SessionJson
session_to_json s = record {
  transaction_id = s.transaction_id;
  status = session_status_value s.status;
  accepted_minor_units = pos s.accepted_amount.minor_units;
  currency_code = some s.accepted_amount.currency;
  accepted_bills = some s.accepted_bills;
  validator_enabled = s.validator_enabled;
  cancel_requested = s.cancel_requested;
}

unfoldable pub session_from_json : SessionJson → Result PaymentSession
session_from_json j = do
  status ← parse_session_status j.status
  amount ← read_amount j.accepted_minor_units (get_or default_currency j.currency_code)
  ok (record {
    transaction_id = j.transaction_id;
    status = status;
    accepted_amount = amount;
    accepted_bills = get_or [] j.accepted_bills;
    validator_enabled = j.validator_enabled;
    cancel_requested = j.cancel_requested;
  })

abbrev pub reserve_to_json : ChangeReserve → ReserveJson
reserve_to_json r = record {
  transaction_id = r.transaction_id;
  counts = sort_keys r.counts;
  currency_code = some r.currency;
  status = reserve_status_value r.status;
}

unfoldable pub reserve_from_json : ReserveJson → Result ChangeReserve
reserve_from_json j = do
  currency ← make_currency (get_or default_currency j.currency_code)
  status ← parse_reserve_status j.status
  ok (record {
    transaction_id = j.transaction_id;
    counts = j.counts;
    currency = currency;
    status = status;
  })

-- `None` is stored as NULL.
abbrev pub map_present {ℓ κ} : {A : Type ℓ} {B : Type κ} → (A → B) → Option A → Option B
map_present f none = none
map_present f (some a) = some (f a)

abbrev pub read_present {ℓ κ} :
    {A : Type ℓ} {B : Type κ} → (A → Result B) → Option A → Result (Option B)
read_present f none = ok none
read_present f (some a) = map_ok some (f a)

unfoldable pub transaction_to_record : Transaction → TransactionRow
unfolding sort_keys
transaction_to_record t = record {
  transaction_id = t.transaction_id;
  correlation_id = t.correlation_id;
  product_id = t.product_id;
  slot_id = t.slot_id;
  price_minor_units = pos t.price.minor_units;
  currency_code = t.price.currency;
  status = transaction_status_value t.status;
  accepted_minor_units = pos t.accepted_amount.minor_units;
  change_due_minor_units = pos t.change_due.minor_units;
  payment_status = payment_status_value t.payment_status;
  payout_status = payout_status_value t.payout_status;
  dispense_status = dispense_status_value t.dispense_status;
  delivery_status = delivery_status_value t.delivery_status;
  recovery_status = recovery_status_value t.recovery_status;
  payment_session_json = map_present session_to_json t.payment_session;
  change_reserve_json = map_present reserve_to_json t.change_reserve;
  updated_at = t.updated_at;
}

unfoldable pub transaction_from_row : TransactionRow → Result Transaction
unfolding session_from_json reserve_from_json
transaction_from_row r = do
  tid ← make_id r.transaction_id
  cid ← make_id r.correlation_id
  pid ← make_id r.product_id
  sid ← make_id r.slot_id
  price ← read_amount r.price_minor_units r.currency_code
  status ← parse_transaction_status r.status
  accepted ← read_amount r.accepted_minor_units r.currency_code
  change_due ← read_amount r.change_due_minor_units r.currency_code
  payment ← parse_payment_status r.payment_status
  payout ← parse_payout_status r.payout_status
  dispense ← parse_dispense_status r.dispense_status
  delivery ← parse_delivery_status r.delivery_status
  recovery ← parse_recovery_status r.recovery_status
  session ← read_present session_from_json r.payment_session_json
  reserve ← read_present reserve_from_json r.change_reserve_json
  ok (record {
    transaction_id = tid;
    correlation_id = cid;
    product_id = pid;
    slot_id = sid;
    price = price;
    status = status;
    accepted_amount = accepted;
    change_due = change_due;
    payment_status = payment;
    payout_status = payout;
    dispense_status = dispense;
    delivery_status = delivery;
    recovery_status = recovery;
    payment_session = session;
    change_reserve = reserve;
    updated_at = r.updated_at;
  })

abbrev pub slot_to_record : Slot → SlotRow
slot_to_record s = record {
  slot_id = s.slot_id;
  product_id = s.product_id;
  capacity = s.capacity;
  quantity = s.quantity;
  is_enabled = flag s.is_enabled;
}

unfoldable pub slot_from_row : SlotRow → Result Slot
slot_from_row r = do
  sid ← make_id r.slot_id
  pid ← make_id r.product_id
  ok (record {
    slot_id = sid;
    product_id = pid;
    capacity = r.capacity;
    quantity = r.quantity;
    is_enabled = truth r.is_enabled;
  })

-- The order of the blockers' texts.
abbrev blocker_rank : Blocker → ℕ
blocker_rank Blocker.critical_temperature = 0
blocker_rank Blocker.delivery_window_fault = 1
blocker_rank Blocker.device_fault = 2
blocker_rank Blocker.recovery_pending = 3
blocker_rank Blocker.service_door_open = 4
blocker_rank Blocker.validator_fault = 5

abbrev pub place_blocker : Blocker → List Blocker → List Blocker
place_blocker b [] = b ∷ []
place_blocker b (x ∷ xs) =
    if leb (blocker_rank b) (blocker_rank x) then b ∷ x ∷ xs else x ∷ place_blocker b xs

-- `sorted(status.sale_blockers)`
unfoldable pub sorted_blockers : List Blocker → List Blocker
sorted_blockers [] = []
sorted_blockers (b ∷ bs) = place_blocker b (sorted_blockers bs)

abbrev pub machine_status_to_record : MachineStatus → StatusRow
machine_status_to_record s = record {
  machine_state = s.machine_state;
  service_mode = flag s.in_service_mode;
  exact_change_only = flag s.exact_change_only;
  sale_blockers_json = sorted_blockers s.sale_blockers;
  active_transaction_id = s.active_transaction_id;
  allow_cash_sales = flag s.allow_cash_sales;
  allow_vending = flag s.allow_vending;
}

abbrev pub machine_status_from_row : StatusRow → MachineStatus
machine_status_from_row r = record {
  machine_state = r.machine_state;
  in_service_mode = truth r.service_mode;
  exact_change_only = truth r.exact_change_only;
  sale_blockers = r.sale_blockers_json;
  active_transaction_id = r.active_transaction_id;
  allow_cash_sales = truth r.allow_cash_sales;
  allow_vending = truth r.allow_vending;
}

unfoldable pub money_inventory_to_record : MoneyInventory → MoneyRow
unfolding sort_keys
money_inventory_to_record m = record {
  currency_code = m.currency;
  accounting_counts_json = sort_keys m.accounting;
  reserved_counts_json = sort_keys m.reserved;
  exact_change_only = flag m.exact_change_only;
  drift_detected = flag m.drift_detected;
}

unfoldable pub money_inventory_from_row : MoneyRow → Result MoneyInventory
money_inventory_from_row r = do
  currency ← make_currency r.currency_code
  ok (record {
    currency = currency;
    accounting = r.accounting_counts_json;
    reserved = r.reserved_counts_json;
    exact_change_only = truth r.exact_change_only;
    drift_detected = truth r.drift_detected;
  })
