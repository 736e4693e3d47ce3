-- ===== src/App/Keeps/Sale.antt =====
-- The payment keeps a stable invariant: app/orchestrators/payment_coordinator.py.
use flower_vending_system.Prelude.{ℕ, Option, none, some, refl}
use flower_vending_system.Prelude.Result.{Error}
use flower_vending_system.Domain.Reserve.{Plan}
use flower_vending_system.Domain.Transaction.{Transaction}
use flower_vending_system.App.World.{World, Env, Action, LogicalStep, ValidatorEventType}
use flower_vending_system.App.Payment.Switch.{
  enter_recovery_pending, disable_failed, disable_acceptance,
}
use flower_vending_system.App.Payment.Session.{
  reserve_plan, enable_failed, enable_acceptance, assess_session, start_cash_session,
}
use flower_vending_system.App.Payment.Settle.{
  change_failed, payout_failed_outcome, pay_change, settle_change, confirm, complete_payment,
}
use flower_vending_system.App.Payment.Events.{
  stack_bill, validator_faulted, on_validator_event, process_validator_event, for_active,
}
use flower_vending_system.App.Payment.Cancel.{
  refund_failed, refund_cancelled_cash, finish_cancel, cancel_purchase,
}
use flower_vending_system.App.Keeps.{Keeps, keeps_rules}
use flower_vending_system.App.Keeps.Stable.{Stable, writes}
use flower_vending_system.App.Keeps.Guarded.{
  Keeps-guarded, Keeps-change_payout, Keeps-refund_payout,
}
use flower_vending_system.App.Keeps.Vend.{
  Keeps-publish_to, Keeps-handle_pickup_finished, Keeps-release_attached, Keeps-finalize_reserve,
  Keeps-handle_vend_authorized,
}

module _ {P : World → Type 0} (st : Stable P) where
  Keeps-disable_acceptance :
      (env : Env) (tid : ℕ) (s : LogicalStep) → Keeps P (disable_acceptance env tid s)
  unfolding disable_acceptance disable_failed enter_recovery_pending
  Keeps-disable_acceptance env tid s =
      Keeps-guarded st _ _ _ _ _ _ _ refl (λ e. search (keeps_rules, writes) depth 14)
        (search writes)

  Keeps-enable_acceptance : (env : Env) (tid : ℕ) → Keeps P (enable_acceptance env tid)
  unfolding enable_acceptance enable_failed
  Keeps-enable_acceptance env tid =
      Keeps-guarded st _ _ _ _ _ _ _ refl (λ e. search (keeps_rules, writes) depth 14)
        (search writes)

  Keeps-reserve_plan : (env : Env) (tid : ℕ) (p : Plan) → Keeps P (reserve_plan env tid p)
  unfolding reserve_plan
  Keeps-reserve_plan env tid p = search (keeps_rules, writes) depth 14

  Keeps-assess_session : (tid : ℕ) → Keeps P (assess_session tid)
  unfolding assess_session
  Keeps-assess_session tid = search (keeps_rules, writes) depth 18

  pub Keeps-start_cash_session : (env : Env) (tid : ℕ) → Keeps P (start_cash_session env tid)
  unfolding start_cash_session
  Keeps-start_cash_session env tid =
      search
        (keeps_rules, writes, Keeps-assess_session, Keeps-reserve_plan, Keeps-enable_acceptance)
        depth 18

  Keeps-pay_change : (env : Env) (tid due : ℕ) → Keeps P (pay_change env tid due)
  unfolding pay_change payout_failed_outcome
  Keeps-pay_change env tid due = search (Keeps-change_payout, keeps_rules, writes) depth 18

  Keeps-settle_change : (env : Env) (tid due : ℕ) → Keeps P (settle_change env tid due)
  unfolding settle_change
  Keeps-settle_change env tid due = search (keeps_rules, Keeps-finalize_reserve, Keeps-pay_change)

  Keeps-change_failed : (e : Error) → Keeps P (change_failed e)
  unfolding change_failed
  Keeps-change_failed e = search (keeps_rules, writes) depth 12

  pub Keeps-complete_payment :
      (env : Env) (timeout tid : ℕ) → Keeps P (complete_payment env timeout tid)
  unfolding complete_payment confirm
  Keeps-complete_payment env timeout tid =
      search
        (
          keeps_rules, writes, Keeps-disable_acceptance, Keeps-settle_change, Keeps-change_failed,
          Keeps-publish_to, Keeps-handle_vend_authorized,
        )
        depth 24

  Keeps-stack_bill : (env : Env) (timeout tid bill : ℕ) → Keeps P (stack_bill env timeout tid bill)
  unfolding stack_bill
  Keeps-stack_bill env timeout tid bill =
      search (keeps_rules, writes, Keeps-complete_payment) depth 18

  Keeps-validator_faulted : (env : Env) (tid : ℕ) → Keeps P (validator_faulted env tid)
  unfolding validator_faulted
  Keeps-validator_faulted env tid = search (keeps_rules, writes) depth 14

  Keeps-on_validator_event :
      (env : Env) (timeout : ℕ) (type : ValidatorEventType) (bill : Option ℕ) (tid : ℕ)
      → Keeps P (on_validator_event env timeout type bill tid)
  unfolding on_validator_event
  Keeps-on_validator_event env timeout ValidatorEventType.validator_fault bill tid =
      Keeps-validator_faulted env tid
  Keeps-on_validator_event env timeout ValidatorEventType.bill_stacked none tid = search keeps_rules
  Keeps-on_validator_event env timeout ValidatorEventType.bill_stacked (some bill) tid =
      Keeps-stack_bill env timeout tid bill
  Keeps-on_validator_event env timeout _ bill tid = search keeps_rules

  Keeps-for_active :
      (f : ℕ → Action (Unit {0})) (t : Option Transaction)
      → ((tid : ℕ) → Keeps P (f tid))
      → Keeps P (for_active f t)
  Keeps-for_active f none k = search keeps_rules
  Keeps-for_active f (some t) k = k t.transaction_id

  pub Keeps-process_validator_event :
      (env : Env) (timeout : ℕ) (type : ValidatorEventType) (bill : Option ℕ)
      → Keeps P (process_validator_event env timeout type bill)
  unfolding process_validator_event
  Keeps-process_validator_event env timeout type bill =
      search (keeps_rules, writes, Keeps-for_active, Keeps-on_validator_event) depth 12

  Keeps-refund_cancelled_cash :
      (env : Env) (t : Transaction) → Keeps P (refund_cancelled_cash env t)
  unfolding refund_cancelled_cash refund_failed enter_recovery_pending
  Keeps-refund_cancelled_cash env t =
      search (Keeps-refund_payout, keeps_rules, writes, Keeps-release_attached) depth 24

  Keeps-finish_cancel : (env : Env) (tid : ℕ) → Keeps P (finish_cancel env tid)
  unfolding finish_cancel
  Keeps-finish_cancel env tid =
      search
        (
          keeps_rules, writes, Keeps-release_attached, Keeps-publish_to,
          Keeps-handle_pickup_finished,
        )
        depth 24

  pub Keeps-cancel_purchase : (env : Env) (tid : ℕ) → Keeps P (cancel_purchase env tid)
  unfolding cancel_purchase
  Keeps-cancel_purchase env tid =
      search
        (
          keeps_rules, writes, Keeps-disable_acceptance, Keeps-refund_cancelled_cash,
          Keeps-finish_cancel,
        )
        depth 14
