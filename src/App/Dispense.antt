-- ===== src/App/Dispense.antt =====
-- app/orchestrators/vending_controller.py: `handle_vend_authorized`, the motor and the window.
-- app/bootstrap.py subscribes `handle_delivery_window_opened` to the last event, best effort.
use flower_vending_system.Prelude.{ℕ, false}
use flower_vending_system.Prelude.Result.{Error}
use flower_vending_system.Domain.Transaction.{
  Transaction, authorize_vend, mark_product_dispensed, mark_window_opened, mark_faulted,
}
use flower_vending_system.Domain.Status.{MachineState}
use flower_vending_system.App.World.{
  Env, Action, ActionName, LogicalStep, JournalOutcome, DeviceCall, Event, raise, try_except, ◌>>=◌,
  ◌>>◌, now, publish, call, require, modify_transaction, try_transaction,
}
use flower_vending_system.App.Journal.{record_intent, record_outcome}
use flower_vending_system.App.Bus.{publish_to}
use flower_vending_system.App.Services.{sync_state, move_to, mark_vended}
use flower_vending_system.App.Pickup.{handle_delivery_window_opened}

-- The two `except` clauses: the transaction and the machine are faulted, and the fault is
-- journaled and raised again.
unfoldable pub vend_fault : Env → ℕ → ActionName → LogicalStep → Error → Action (Unit {0})
vend_fault env tid a s e = do
  at ← now env
  modify_transaction tid (mark_faulted at)
  move_to MachineState.fault
  sync_state
  record_outcome tid a s JournalOutcome.ambiguous
  raise e

unfoldable pub run_motor : Env → Transaction → Action (Unit {0})
unfolding vend_fault
run_motor env t = do
  record_intent t.transaction_id ActionName.motor_vend_requested LogicalStep.vend_motor
  try_except (call env.vend_ok (DeviceCall.vend_slot t.slot_id))
      (vend_fault env t.transaction_id ActionName.motor_vend_requested LogicalStep.vend_motor)
  record_outcome t.transaction_id ActionName.motor_vend_requested LogicalStep.vend_motor
      JournalOutcome.succeeded

unfoldable pub open_delivery_window : Env → ℕ → Action (Unit {0})
unfolding vend_fault
open_delivery_window env tid = do
  record_intent tid ActionName.window_open_requested LogicalStep.vend_open_window
  try_except (call env.open_ok DeviceCall.open_window)
      (vend_fault env tid ActionName.window_open_requested LogicalStep.vend_open_window)
  record_outcome tid ActionName.window_open_requested LogicalStep.vend_open_window
      JournalOutcome.succeeded

-- `handle_vend_authorized` up to the motor's intent.
unfoldable pub authorize : Env → ℕ → Action Transaction
authorize env tid = do
  require tid
  at ← now env
  try_transaction tid (authorize_vend at)
  move_to MachineState.dispensing_product
  sync_state
  t ← require tid
  publish (Event.product_dispense_requested tid t.slot_id)
  require tid

-- What follows the motor's success.
unfoldable pub deliver : Env → ℕ → Transaction → Action (Unit {0})
unfolding open_delivery_window
deliver env timeout t = do
  mark_vended t.slot_id
  at ← now env
  modify_transaction t.transaction_id (mark_product_dispensed at)
  publish (Event.product_dispensed t.transaction_id t.slot_id)
  move_to MachineState.opening_delivery_window
  sync_state
  open_delivery_window env t.transaction_id
  at ← now env
  modify_transaction t.transaction_id (mark_window_opened at)
  move_to MachineState.waiting_for_customer_pickup
  sync_state
  publish_to false (handle_delivery_window_opened timeout t.transaction_id)
      (Event.delivery_window_opened t.transaction_id)

unfoldable pub handle_vend_authorized : Env → ℕ → ℕ → Action (Unit {0})
unfolding authorize run_motor deliver
handle_vend_authorized env timeout tid = do
  t ← authorize env tid
  run_motor env t
  deliver env timeout t
