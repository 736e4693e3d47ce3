-- ===== src/App/Payment/Cancel.antt =====
-- app/orchestrators/payment_coordinator.py: `cancel_purchase` and the refund. app/bootstrap.py
-- subscribes `handle_pickup_finished` to `transaction_cancelled`, best effort.
use flower_vending_system.Prelude.{ℕ, Bool, false, not, ◌&&◌, none, ltb}
use flower_vending_system.Prelude.Result.{Error}
use flower_vending_system.Domain.Statuses.{is_confirmed}
use flower_vending_system.Domain.Transaction.{Transaction, mark_ambiguous, cancel}
use flower_vending_system.Domain.Status.{MachineState, set_active_transaction}
use flower_vending_system.App.World.{
  Env, Action, ActionName, LogicalStep, JournalOutcome, Event, raise, try_except, ◌>>=◌, ◌>>◌, when,
  now, publish, require, modify_transaction,
}
use flower_vending_system.App.Journal.{record_intent, record_outcome}
use flower_vending_system.App.Bus.{publish_to}
use flower_vending_system.App.Services.{modify_status, sync_state, move_to, clear_active}
use flower_vending_system.App.Change.{release_attached, dispense_refund}
use flower_vending_system.App.Pickup.{handle_pickup_finished}
use flower_vending_system.App.Payment.Switch.{enter_recovery_pending, disable_acceptance}

unfoldable pub refund_failed : Env → ℕ → ℕ → Error → Action (Unit {0})
unfolding enter_recovery_pending
refund_failed env tid amount e = do
  at ← now env
  modify_transaction tid (mark_ambiguous at)
  enter_recovery_pending
  record_outcome tid ActionName.refund_dispense_requested LogicalStep.cancel_refund
      JournalOutcome.ambiguous
  publish (Event.refund_failed tid amount)
  raise e

-- `_refund_cancelled_cash`
unfoldable pub refund_cancelled_cash : Env → Transaction → Action (Unit {0})
unfolding refund_failed
refund_cancelled_cash env t = do
  let tid = t.transaction_id
  let amount = t.accepted_amount.minor_units
  release_attached tid t.change_reserve
  publish (Event.refund_requested tid amount)
  record_intent tid ActionName.refund_dispense_requested LogicalStep.cancel_refund
  try_except (dispense_refund env tid amount) (refund_failed env tid amount)
  record_outcome tid ActionName.refund_dispense_requested LogicalStep.cancel_refund
      JournalOutcome.succeeded
  publish (Event.refund_dispensed tid amount)

unfoldable pub needs_refund : Transaction → Bool
needs_refund t = not (is_confirmed t.payment_status) && ltb 0 t.accepted_amount.minor_units

-- `cancel_purchase` behind the refund.
unfoldable pub finish_cancel : Env → ℕ → Action (Unit {0})
finish_cancel env tid = do
  t ← require tid
  release_attached tid t.change_reserve
  at ← now env
  modify_transaction tid (cancel at)
  move_to MachineState.cancelled
  sync_state
  publish_to false (handle_pickup_finished tid) (Event.transaction_cancelled tid)
  clear_active tid
  modify_status (set_active_transaction none)

unfoldable pub cancel_purchase : Env → ℕ → Action (Unit {0})
unfolding disable_acceptance refund_cancelled_cash finish_cancel
cancel_purchase env tid = do
  require tid
  disable_acceptance env tid LogicalStep.cancel_disable
  t ← require tid
  when (needs_refund t) (refund_cancelled_cash env t)
  finish_cancel env tid
