-- ===== src/App/Payment/Switch.antt =====
-- app/orchestrators/payment_coordinator.py: switching the validator's acceptance off, and the
-- move to recovery when that fails.
use flower_vending_system.Prelude.{ℕ}
use flower_vending_system.Prelude.Result.{Error}
use flower_vending_system.Domain.Transaction.{mark_ambiguous}
use flower_vending_system.Domain.Status.{MachineState}
use flower_vending_system.App.World.{
  Env, Action, ActionName, LogicalStep, JournalOutcome, DeviceCall, raise, try_except, ◌>>=◌, ◌>>◌,
  now, call, modify_transaction,
}
use flower_vending_system.App.Journal.{record_intent, record_outcome}
use flower_vending_system.App.Services.{sync_state, move_or_force}

-- `_enter_recovery_pending`
unfoldable pub enter_recovery_pending : Action (Unit {0})
enter_recovery_pending = move_or_force MachineState.recovery_pending >> sync_state

-- The validator's acceptance is switched off, by `complete_payment` and by `cancel_purchase`.
unfoldable pub disable_failed : Env → ℕ → LogicalStep → Error → Action (Unit {0})
unfolding enter_recovery_pending
disable_failed env tid s e = do
  at ← now env
  modify_transaction tid (mark_ambiguous at)
  enter_recovery_pending
  record_outcome tid ActionName.acceptance_disable_requested s JournalOutcome.ambiguous
  raise e

unfoldable pub disable_acceptance : Env → ℕ → LogicalStep → Action (Unit {0})
unfolding disable_failed
disable_acceptance env tid s = do
  record_intent tid ActionName.acceptance_disable_requested s
  try_except (call env.disable_ok DeviceCall.disable_acceptance) (disable_failed env tid s)
  record_outcome tid ActionName.acceptance_disable_requested s JournalOutcome.succeeded
