-- ===== src/App/Payment/Events.antt =====
-- app/orchestrators/payment_coordinator.py: `process_validator_event`.
use flower_vending_system.Prelude.{ℕ, ◌-◌, Option, none, some}
use flower_vending_system.Prelude.Result.{value_error, validator_unavailable}
use flower_vending_system.Domain.Amount.{ge_amount}
use flower_vending_system.Domain.Transaction.{Transaction, record_stacked_cash, mark_faulted}
use flower_vending_system.Domain.Status.{MachineState, Blocker}
use flower_vending_system.App.World.{
  Env, Action, Event, ValidatorEventType, pure, raise, lift, gets, ◌>>=◌, ◌>>◌, when, now, publish,
  require, modify_transaction, try_transaction,
}
use flower_vending_system.App.Services.{sync_state, block_sales, move_to, active}
use flower_vending_system.App.Payment.Settle.{complete_payment}

-- `process_validator_event`, for a stacked bill and a transaction.
unfoldable pub stack_bill : Env → ℕ → ℕ → ℕ → Action (Unit {0})
stack_bill env timeout tid bill = do
  at ← now env
  try_transaction tid (record_stacked_cash bill at)
  t ← require tid
  publish (
      Event.cash_amount_updated tid t.accepted_amount.minor_units
        (t.price.minor_units - t.accepted_amount.minor_units))
  paid ← lift (ge_amount t.accepted_amount t.price)
  when paid (complete_payment env timeout tid)

unfoldable pub validator_faulted : Env → ℕ → Action (Unit {0})
validator_faulted env tid = do
  at ← now env
  modify_transaction tid (mark_faulted at)
  block_sales Blocker.validator_fault
  move_to MachineState.fault
  sync_state
  raise validator_unavailable

unfoldable pub on_validator_event : Env → ℕ → ValidatorEventType → Option ℕ → ℕ → Action (Unit {0})
unfolding stack_bill validator_faulted
on_validator_event env timeout ValidatorEventType.validator_fault bill tid =
    validator_faulted env tid
on_validator_event env timeout ValidatorEventType.bill_stacked none tid = raise value_error
on_validator_event env timeout ValidatorEventType.bill_stacked (some bill) tid =
    stack_bill env timeout tid bill
on_validator_event env timeout _ bill tid = pure tt

abbrev id_of : Option Transaction → Option ℕ
id_of none = none
id_of (some t) = some t.transaction_id

abbrev pub for_active : (ℕ → Action (Unit {0})) → Option Transaction → Action (Unit {0})
for_active f none = pure tt
for_active f (some t) = f t.transaction_id

unfoldable pub process_validator_event : Env → ℕ → ValidatorEventType → Option ℕ → Action (Unit {0})
unfolding on_validator_event
process_validator_event env timeout type bill = do
  t ← gets active
  publish (Event.device_event type (id_of t) bill)
  for_active (on_validator_event env timeout type bill) t
