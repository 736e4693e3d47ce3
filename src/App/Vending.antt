-- ===== src/App/Vending.antt =====
-- app/orchestrators/vending_controller.py: the handlers of the customer's commands.
-- app/bootstrap.py subscribes `handle_pickup_finished` to `pickup_confirmed` and to
-- `transaction_completed`, best effort. `confidence < 0.5` is read in thousandths.
use flower_vending_system.Prelude.{ℕ, false, not, ◌||◌, none, some, ltb}
use flower_vending_system.Prelude.Int.{ℤ, pos_part}
use flower_vending_system.Prelude.Result.{Error, inventory_mismatch}
use flower_vending_system.Domain.Transaction.{
  Transaction, confirm_pickup, mark_window_closed, mark_faulted,
}
use flower_vending_system.Domain.Status.{MachineState, set_active_transaction}
use flower_vending_system.Fsm.Transitions.{same_state}
use flower_vending_system.App.World.{
  Env, Action, ActionName, LogicalStep, JournalOutcome, DeviceCall, Event, Presence, pure, raise,
  gets, try_except, ◌>>=◌, ◌>>◌, raise_if, when, now, publish, call, call_presence, require,
  modify_transaction,
}
use flower_vending_system.App.Journal.{record_intent, record_outcome}
use flower_vending_system.App.Bus.{publish_to}
use flower_vending_system.App.Services.{
  modify_status, sync_state, ensure_sales_allowed, move_to, ensure_selection, create_transaction,
  clear_active,
}
use flower_vending_system.App.Pickup.{handle_pickup_finished}
use flower_vending_system.App.Payment.Session.{start_cash_session}
use flower_vending_system.App.Payment.Cancel

abbrev pub check_presence : Presence → Action (Unit {0})
check_presence p = raise_if (not p.has_product || ltb p.confidence 500) inventory_mismatch

-- `if self._inventory_sensor is not None`
unfoldable pub check_slot : Env → ℕ → Action (Unit {0})
check_slot env slot = when env.has_slot_sensor (call_presence env.presence slot >>= check_presence)

unfoldable pub select_product : Action (Unit {0})
select_product = do
  move_to MachineState.product_selected
  move_to MachineState.checking_availability
  move_to MachineState.checking_change
  move_to MachineState.waiting_for_payment
  sync_state

-- `start_purchase`: the command's correlation id, product, slot, price and currency.
unfoldable pub start_purchase : Env → ℕ → ℕ → ℕ → ℤ → ℕ → Action ℕ
unfolding check_slot select_product
start_purchase env cid pid slot price currency = do
  ensure_sales_allowed
  ensure_selection pid slot
  check_slot env slot
  t ← create_transaction env cid pid slot price currency
  modify_status (set_active_transaction (some t.transaction_id))
  select_product
  publish (Event.purchase_started t.transaction_id pid slot (pos_part price))
  pure t.transaction_id

unfoldable pub accept_cash : Env → ℕ → Action ℕ
accept_cash env tid = start_cash_session env tid >> pure tid

unfoldable pub cancel_purchase : Env → ℕ → Action ℕ
cancel_purchase env tid = do
  Cancel.cancel_purchase env tid
  state ← gets (λ w. w.fsm.state)
  when (same_state state MachineState.cancelled) (move_to MachineState.idle >> sync_state)
  pure tid

unfoldable pub close_failed : Env → ℕ → Error → Action (Unit {0})
close_failed env tid e = do
  at ← now env
  modify_transaction tid (mark_faulted at)
  record_outcome tid ActionName.window_close_requested LogicalStep.pickup_close_window
      JournalOutcome.ambiguous
  raise e

unfoldable pub close_window : Env → ℕ → Action (Unit {0})
unfolding close_failed
close_window env tid = do
  record_intent tid ActionName.window_close_requested LogicalStep.pickup_close_window
  try_except (call env.close_ok DeviceCall.close_window) (close_failed env tid)
  record_outcome tid ActionName.window_close_requested LogicalStep.pickup_close_window
      JournalOutcome.succeeded

-- What follows the closing of the window.
unfoldable pub complete_sale : Env → Transaction → Action (Unit {0})
complete_sale env t = do
  let tid = t.transaction_id
  at ← now env
  modify_transaction tid (mark_window_closed at)
  move_to MachineState.completed
  publish_to false (handle_pickup_finished tid) (Event.pickup_confirmed tid)
  publish_to false (handle_pickup_finished tid)
      (Event.transaction_completed tid t.product_id t.slot_id)
  clear_active tid
  modify_status (set_active_transaction none)
  move_to MachineState.idle
  sync_state

-- The command handler `confirm_pickup`.
unfoldable pub handle_confirm_pickup : Env → ℕ → Action ℕ
unfolding close_window complete_sale
handle_confirm_pickup env tid = do
  t ← require tid
  at ← now env
  modify_transaction tid (confirm_pickup at)
  move_to MachineState.closing_delivery_window
  sync_state
  close_window env tid
  complete_sale env t
  pure tid
