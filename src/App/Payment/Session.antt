-- ===== src/App/Payment/Session.antt =====
-- app/orchestrators/payment_coordinator.py: `start_cash_session`.
use flower_vending_system.Prelude.{ℕ, Bool, true, false, not, [], ◌∷◌}
use flower_vending_system.Prelude.Result.{Error, change_unavailable, validator_unavailable}
use flower_vending_system.Domain.Reserve.{Plan, reserved_total}
use flower_vending_system.Domain.Transaction.{start_session, attach_change_reserve, mark_faulted}
use flower_vending_system.Domain.Status.{MachineState, Blocker, set_exact_change_only}
use flower_vending_system.Money.Assessment.{assess_sale}
use flower_vending_system.App.World.{
  Env, Action, ActionName, LogicalStep, JournalOutcome, DeviceCall, Event, pure, raise, lift, gets,
  try_except, ◌>>=◌, ◌>>◌, raise_if, when, now, publish, call, require, modify_transaction,
}
use flower_vending_system.App.Journal.{record_intent, record_outcome}
use flower_vending_system.App.Services.{
  modify_status, sync_state, block_sales, ensure_sales_allowed, move_to,
}
use flower_vending_system.App.Change.{reserve_money}

abbrev is_empty_plan : Plan → Bool
is_empty_plan [] = true
is_empty_plan (_ ∷ _) = false

-- `if assessment.plan`
unfoldable pub reserve_plan : Env → ℕ → Plan → Action (Unit {0})
reserve_plan env tid plan = when (not (is_empty_plan plan)) do
  r ← reserve_money tid plan
  at ← now env
  modify_transaction tid (attach_change_reserve r at)
  publish (Event.change_reserve_created tid (reserved_total r).minor_units)

unfoldable pub enable_failed : Env → ℕ → Error → Action (Unit {0})
enable_failed env tid e = do
  at ← now env
  modify_transaction tid (mark_faulted at)
  block_sales Blocker.validator_fault
  move_to MachineState.fault
  sync_state
  record_outcome tid ActionName.acceptance_enable_requested LogicalStep.start_session_enable
      JournalOutcome.ambiguous
  raise validator_unavailable

unfoldable pub enable_acceptance : Env → ℕ → Action (Unit {0})
unfolding enable_failed
enable_acceptance env tid = do
  record_intent tid ActionName.acceptance_enable_requested LogicalStep.start_session_enable
  try_except (call env.enable_ok DeviceCall.enable_acceptance) (enable_failed env tid)
  record_outcome tid ActionName.acceptance_enable_requested LogicalStep.start_session_enable
      JournalOutcome.succeeded

-- The checks of `start_cash_session`, which leave the transaction as it is.
unfoldable pub assess_session : ℕ → Action Plan
assess_session tid = do
  ensure_sales_allowed
  t ← require tid
  bills ← gets (λ w. w.accepted_bills)
  money ← gets (λ w. w.money)
  a ← lift (assess_sale bills t.price.minor_units money)
  modify_status (set_exact_change_only a.exact_change_only)
  raise_if (not a.sale_supported) change_unavailable
  pure a.plan

unfoldable pub start_cash_session : Env → ℕ → Action (Unit {0})
unfolding assess_session reserve_plan enable_acceptance
start_cash_session env tid = do
  plan ← assess_session tid
  reserve_plan env tid plan
  at ← now env
  modify_transaction tid (start_session at)
  move_to MachineState.accepting_cash
  sync_state
  enable_acceptance env tid
  publish (Event.cash_session_started tid 0)
