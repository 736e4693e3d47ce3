-- ===== src/App/Recovery.antt =====
-- app/orchestrators/recovery_manager.py.
pub mod Assess
use flower_vending_system.Prelude.{
  ℕ, Bool, true, false, not, Option, none, some, List, [], ◌∷◌, if◌then◌else◌,
}
use flower_vending_system.Prelude.Dict.{lookup}
use flower_vending_system.Prelude.Result.{ok, manual_intervention_required}
use flower_vending_system.Domain.Statuses.{TransactionStatus, PaymentStatus, PayoutStatus}
use flower_vending_system.Domain.Transaction.{
  Transaction, mark_ambiguous, mark_recovery_pending, cancel,
}
use flower_vending_system.Domain.Status.{MachineState, Blocker, set_active_transaction}
use flower_vending_system.App.World.{
  Env, Action, ActionName, JournalEntry, Event, pure, gets, ◌>>=◌, ◌>>◌, raise, when, if_else, now,
  publish, require, modify_transaction,
}
use flower_vending_system.App.Journal.{unresolved_intents}
use flower_vending_system.App.Services.{
  modify_status, sync_state, block_sales, unblock_sales, move_to, move_or_force, clear_active,
}

-- `RecoveryPlan.action` and `.reason`.
pub data RecoveryAction : Type 0 where
  do_nothing manual_review pending_review cancel_safe recovery_pending : RecoveryAction

pub data RecoveryReason : Type 0 where
  transaction_terminal pickup_timeout ambiguous_side_effect payout_unresolved : RecoveryReason
  confirmed_payment_replay_needed payment_not_confirmed : RecoveryReason
  unresolved_intent : ActionName → RecoveryReason

pub record RecoveryPlan : Type 0 where
  pub transaction_id : ℕ
  pub action : RecoveryAction
  pub reason : RecoveryReason
  pub operator_required : Bool

abbrev plan_of : ℕ → RecoveryAction → RecoveryReason → Bool → RecoveryPlan
plan_of tid a r o = record { transaction_id = tid; action = a; reason = r; operator_required = o }

-- The last two tests of `assess`.
unfoldable pub assess_payment : ℕ → PaymentStatus → PayoutStatus → RecoveryPlan
assess_payment tid PaymentStatus.confirmed PayoutStatus.partial =
    plan_of tid manual_review payout_unresolved true
assess_payment tid PaymentStatus.confirmed PayoutStatus.ambiguous =
    plan_of tid manual_review payout_unresolved true
assess_payment tid PaymentStatus.confirmed PayoutStatus.failed =
    plan_of tid manual_review payout_unresolved true
assess_payment tid PaymentStatus.confirmed _ =
    plan_of tid pending_review confirmed_payment_replay_needed true
assess_payment tid _ _ = plan_of tid cancel_safe payment_not_confirmed false

unfoldable pub assess_status : ℕ → TransactionStatus → RecoveryPlan → RecoveryPlan
assess_status tid TransactionStatus.completed p = plan_of tid do_nothing transaction_terminal false
assess_status tid TransactionStatus.cancelled p = plan_of tid do_nothing transaction_terminal false
assess_status tid TransactionStatus.pickup_timed_out p =
    plan_of tid manual_review pickup_timeout true
assess_status tid TransactionStatus.ambiguous p =
    plan_of tid manual_review ambiguous_side_effect true
assess_status tid TransactionStatus.faulted p = plan_of tid manual_review ambiguous_side_effect true
assess_status tid _ p = p

unfoldable pub assess : Transaction → RecoveryPlan
unfolding assess_payment assess_status
assess t =
    assess_status t.transaction_id t.status
      (assess_payment t.transaction_id t.payment_status t.payout_status)

-- `MANUAL_REVIEW_INTENTS`
abbrev pub needs_manual_review : ActionName → Bool
needs_manual_review ActionName.acceptance_enable_requested = false
needs_manual_review ActionName.acceptance_disable_requested = false
needs_manual_review _ = true

unfoldable pub mark_intent : Env → JournalEntry → Action (Unit {0})
mark_intent env i = do
  at ← now env
  if_else (needs_manual_review i.action) (modify_transaction i.transaction_id (mark_ambiguous at))
      (modify_transaction i.transaction_id (mark_recovery_pending at))

abbrev intent_plan : JournalEntry → RecoveryPlan
intent_plan i =
    if needs_manual_review i.action
    then plan_of i.transaction_id manual_review (unresolved_intent i.action) true
    else plan_of i.transaction_id recovery_pending (unresolved_intent i.action) false

-- The plan for one intent: none if its transaction is not known.
unfoldable pub mark_if_known :
    Env → JournalEntry → Option Transaction → Action (Option RecoveryPlan)
unfolding mark_intent
mark_if_known env i none = pure none
mark_if_known env i (some t) = mark_intent env i >> pure (some (intent_plan i))

unfoldable pub mark_unresolved_intent : Env → JournalEntry → Action (Option RecoveryPlan)
unfolding mark_if_known
mark_unresolved_intent env i =
    gets (λ w. lookup i.transaction_id w.transactions) >>= mark_if_known env i

unfoldable pub announce : JournalEntry → RecoveryPlan → Action (Unit {0})
announce i p = do
  publish (Event.unresolved_intent_detected p.transaction_id i.action)
  when p.operator_required (publish (Event.manual_review_required (some p.transaction_id)))

-- What the loop does with a plan, before the rest.
unfoldable pub report :
    JournalEntry → Option RecoveryPlan → Action (List RecoveryPlan) → Action (List RecoveryPlan)
report i none rest = rest
report i (some p) rest = announce i p >> (rest >>= λ ps. pure (p ∷ ps))

unfoldable pub detect_from : Env → List JournalEntry → Action (List RecoveryPlan)
unfolding report
detect_from env [] = pure []
detect_from env (i ∷ is) = mark_unresolved_intent env i >>= λ p. report i p (detect_from env is)

abbrev is_empty_list : List RecoveryPlan → Bool
is_empty_list [] = true
is_empty_list (_ ∷ _) = false

-- The machine goes to RECOVERY_PENDING, by force if it must, and sells nothing.
unfoldable pub enter_recovery : Action (Unit {0})
enter_recovery = do
  move_or_force MachineState.recovery_pending
  sync_state
  block_sales Blocker.recovery_pending

unfoldable pub detect_unresolved_intents : Env → Action (List RecoveryPlan)
unfolding enter_recovery
detect_unresolved_intents env = do
  intents ← gets (λ w. unresolved_intents w.journal)
  plans ← detect_from env intents
  when (not (is_empty_list plans)) enter_recovery
  pure plans

-- The `cancel_safe` branch.
unfoldable pub cancel_safely : Env → ℕ → Action (Unit {0})
cancel_safely env tid = do
  at ← now env
  modify_transaction tid (cancel at)
  clear_active tid
  modify_status (set_active_transaction none)
  unblock_sales Blocker.recovery_pending
  move_to MachineState.idle
  sync_state
  publish (Event.recovery_completed tid)

abbrev pub is_cancel_safe : RecoveryAction → Bool
is_cancel_safe cancel_safe = true
is_cancel_safe _ = false

unfoldable pub recover_transaction : Env → ℕ → Action RecoveryPlan
unfolding enter_recovery cancel_safely
recover_transaction env tid = do
  t ← require tid
  let plan = assess t
  enter_recovery
  publish (Event.recovery_started tid)
  when plan.operator_required
      (publish (Event.manual_review_required (some tid)) >> raise manual_intervention_required)
  when (is_cancel_safe plan.action) (cancel_safely env tid)
  pure plan
