-- ===== src/App/Payment/Settle.antt =====
-- app/orchestrators/payment_coordinator.py: `complete_payment`. app/bootstrap.py subscribes
-- `handle_vend_authorized` to `vend_authorized`, critically.
use flower_vending_system.Prelude.{ℕ, true, ltb}
use flower_vending_system.Prelude.Result.{Error}
use flower_vending_system.Domain.Transaction.{confirm_payment, mark_change_pending}
use flower_vending_system.Domain.Status.{MachineState}
use flower_vending_system.Fsm.Engine.{can_transition}
use flower_vending_system.App.World.{
  Env, Action, ActionName, LogicalStep, JournalOutcome, Event, raise, gets, try_except, ◌>>=◌, ◌>>◌,
  when, now, publish, require, modify_transaction, try_transaction,
}
use flower_vending_system.App.Journal.{record_intent, record_outcome}
use flower_vending_system.App.Bus.{publish_to}
use flower_vending_system.App.Services.{sync_state, move_to}
use flower_vending_system.App.Change.{finalize_reserve, dispense_change}
use flower_vending_system.App.Dispense.{handle_vend_authorized}
use flower_vending_system.App.Payment.Switch.{disable_acceptance}

-- `if self._fsm.can_transition(RECOVERY_PENDING)`, then raise again.
unfoldable pub change_failed : Error → Action (Unit {0})
change_failed e = do
  allowed ← gets (λ w. can_transition MachineState.recovery_pending w.fsm)
  when allowed (move_to MachineState.recovery_pending >> sync_state)
  raise e

unfoldable pub payout_failed_outcome : ℕ → Error → Action (Unit {0})
payout_failed_outcome tid e = do
  record_outcome tid ActionName.change_dispense_requested LogicalStep.complete_payment_change
      JournalOutcome.ambiguous
  raise e

-- The payout of the change that is due.
unfoldable pub pay_change : Env → ℕ → ℕ → Action (Unit {0})
unfolding payout_failed_outcome
pay_change env tid due = do
  at ← now env
  modify_transaction tid (mark_change_pending at)
  move_to MachineState.dispensing_change
  sync_state
  record_intent tid ActionName.change_dispense_requested LogicalStep.complete_payment_change
  publish (Event.change_requested tid due)
  try_except (dispense_change env tid) (payout_failed_outcome tid)
  record_outcome tid ActionName.change_dispense_requested LogicalStep.complete_payment_change
      JournalOutcome.succeeded
  publish (Event.change_dispensed tid due)

-- The `try` block of `complete_payment`.
unfoldable pub settle_change : Env → ℕ → ℕ → Action (Unit {0})
unfolding pay_change
settle_change env tid due = finalize_reserve env tid >> when (ltb 0 due) (pay_change env tid due)

unfoldable pub confirm : Env → ℕ → Action (Unit {0})
confirm env tid = do require tid; at ← now env; try_transaction tid (confirm_payment at)

unfoldable pub complete_payment : Env → ℕ → ℕ → Action (Unit {0})
unfolding confirm disable_acceptance settle_change change_failed
complete_payment env timeout tid = do
  confirm env tid
  disable_acceptance env tid LogicalStep.complete_payment_disable
  move_to MachineState.payment_accepted
  sync_state
  t ← require tid
  publish (Event.payment_confirmed tid t.accepted_amount.minor_units t.change_due.minor_units)
  try_except (settle_change env tid t.change_due.minor_units) change_failed
  publish_to true (handle_vend_authorized env timeout tid) (Event.vend_authorized tid t.slot_id)
