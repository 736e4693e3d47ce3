-- ===== src/App/Outcome/Vend.antt =====
-- How `handle_vend_authorized` of app/orchestrators/vending_controller.py ends.
use flower_vending_system.Prelude.{
  ℕ, suc, Bool, true, false, not, ◌&&◌, some, List, ◌≡◌, refl, arith, ltb,
}
use flower_vending_system.Prelude.Dict.{Dict, lookup, insert}
use flower_vending_system.Prelude.Result.{Error, ok, err, device_error, invariant_violation}
use flower_vending_system.Domain.Statuses.{
  TransactionStatus, DispenseStatus, is_confirmed, is_dispensed,
}
use flower_vending_system.Domain.Transaction.{Transaction, authorize_vend, mark_faulted}
use flower_vending_system.Domain.Slot.{Slot}
use flower_vending_system.Domain.Status.{MachineState, MachineStatus, set_machine_state}
use flower_vending_system.Fsm.Engine.{Engine}
use flower_vending_system.Fsm.Transitions.{is_allowed}
use flower_vending_system.App.World.{Effect, World, Env, ActionName, LogicalStep}
use flower_vending_system.App.Wp.{Wp, Raises, Wp-bind, Wp-try_except}
use flower_vending_system.App.Wp.Calls.{wp_rules, Wp-require, Wp-now, Wp-call_err}
use flower_vending_system.App.Wp.Writes.{
  Wp-try_transaction_err, Wp-try_transaction, Wp-record_intent, Wp-publish, Wp-move_to,
  Wp-sync_state,
}
use flower_vending_system.App.Outcome.{lookup-inserted}
use flower_vending_system.App.Dispense.{vend_fault, run_motor, authorize, handle_vend_authorized}

-- The payment is confirmed, and the change that is due has been paid out.
abbrev pub is_paid : Transaction → Bool
is_paid t =
    is_confirmed t.payment_status
    && not (ltb 0 t.change_due.minor_units && not (is_dispensed t.payout_status))

abbrev pub authorized : ℕ → Transaction → Transaction
authorized at t = record t {
  dispense_status = DispenseStatus.authorized;
  status = TransactionStatus.dispensing_product;
  updated_at = at;
}

authorize_vend-paid :
    (at : ℕ) (t : Transaction) → is_paid t ≡ true → authorize_vend at t ≡ ok (authorized at t)
unfolding authorize_vend
authorize_vend-paid at t h = ground arith

authorize_vend-unpaid :
    (at : ℕ) (t : Transaction) → is_paid t ≡ false → authorize_vend at t ≡ err invariant_violation
unfolding authorize_vend
authorize_vend-unpaid at t h = ground arith

-- Without a confirmed payment, or with change that is due and not paid out, the vend handler
-- raises before anything changes but the clock: nothing is journaled, published or moved.
pub handle_vend_authorized-unpaid :
    (env : Env) (timeout tid : ℕ) (w : World) {t : Transaction}
    → lookup tid w.transactions ≡ some t
    → is_paid t ≡ false
    → Raises
        (handle_vend_authorized env timeout tid)
        (λ e w'. (e ≡ invariant_violation) × (w' ≡ record w { tick = suc w.tick }))
        w
unfolding handle_vend_authorized authorize
handle_vend_authorized-unpaid env timeout tid w h unpaid = Wp-bind _ _ _ (
    Wp-bind _ _ _ (
      Wp-require _ _ h (
        Wp-bind _ _ _ (
          Wp-now _ _ (
            Wp-bind _ _ _
              (Wp-try_transaction_err _ _ _ h (authorize_vend-unpaid _ _ unpaid) (refl, refl)))))))

-- An actuator failed: its exception is raised again, the transaction is faulted, the machine is
-- in FAULT and vends nothing, and the stock is `slots`.
pub record IsVendFault (t : Transaction) (slots : Dict Slot) (e : Error) (w : World) : Type 0 where
  pub raised : e ≡ device_error
  pub stored : lookup t.transaction_id w.transactions ≡ some t
  pub state : w.fsm.state ≡ MachineState.fault
  pub no_vending : w.status.allow_vending ≡ false
  pub stock : w.slots ≡ slots

fault-no_vending :
    (s : MachineState) (m : MachineStatus)
    → s ≡ MachineState.fault
    → (set_machine_state s m).allow_vending ≡ false
fault-no_vending s m e = rw e (ground arith)

vend_fault_lem :
    (env : Env) (t : Transaction) (a : ActionName) (s : LogicalStep) (w : World)
    {Q : Unit {0} → World → Type 0}
    → lookup t.transaction_id w.transactions ≡ some t
    → is_allowed w.fsm.state MachineState.fault ≡ true
    → Wp
        (vend_fault env t.transaction_id a s device_error)
        Q
        (IsVendFault (mark_faulted (env.clock w.tick) t) w.slots)
        w
unfolding vend_fault
vend_fault_lem env t a s w h k = search (wp_rules, lookup-inserted, fault-no_vending) depth 40

pub authorize_lem :
    (env : Env) (t : Transaction) (w : World) {Q : Transaction → World → Type 0}
    {E : Error → World → Type 0}
    → lookup t.transaction_id w.transactions ≡ some t
    → is_paid t ≡ true
    → is_allowed w.fsm.state MachineState.dispensing_product ≡ true
    → ((f : Engine) (s : MachineStatus) (tr : List Effect)
        → f.state ≡ MachineState.dispensing_product
        → Q (authorized (env.clock w.tick) t) (record w {
          fsm = f;
          status = s;
          transactions = insert t.transaction_id (authorized (env.clock w.tick) t) w.transactions;
          trace = tr;
          tick = suc w.tick;
        }))
    → Wp (authorize env t.transaction_id) Q E w
unfolding authorize
authorize_lem env t w h paid a k = Wp-bind _ _ _ (
    Wp-require _ _ h (
      Wp-bind _ _ _ (
        Wp-now _ _ (
          Wp-bind _ _ _ (
            Wp-try_transaction _ _ _ h (authorize_vend-paid _ _ paid) (
              Wp-bind _ _ _ (
                Wp-move_to _ _ a λ f e. Wp-bind _ _ _ (
                  Wp-sync_state _ (
                    Wp-bind _ _ _ (
                      Wp-require _ _ (lookup-inserted _ _ w.transactions) (
                        Wp-bind _ _ _ (
                          Wp-publish _ _ (
                            Wp-require _ _ (lookup-inserted _ _ w.transactions)
                              (k f _ _ e))))))))))))))

from_dispensing :
    (s : MachineState)
    → s ≡ MachineState.dispensing_product
    → is_allowed s MachineState.fault ≡ true
unfolding is_allowed
from_dispensing s e = rw e refl

-- If the motor fails, the vend handler raises its exception, the transaction is faulted, the
-- machine is in FAULT and vends nothing, and the stock is as it was.
pub handle_vend_authorized-motor_fault :
    (env : Env) (timeout : ℕ) (t : Transaction) (w : World)
    → lookup t.transaction_id w.transactions ≡ some t
    → is_paid t ≡ true
    → is_allowed w.fsm.state MachineState.dispensing_product ≡ true
    → env.vend_ok (suc w.tick) ≡ false
    → Raises
        (handle_vend_authorized env timeout t.transaction_id)
        (IsVendFault
          (mark_faulted (env.clock (suc (suc w.tick))) (authorized (env.clock w.tick) t))
          w.slots)
        w
unfolding handle_vend_authorized run_motor
handle_vend_authorized-motor_fault env timeout t w h paid a broken = Wp-bind _ _ _ (
    authorize_lem env t w h paid a λ f s tr e. Wp-bind _ _ _ (
      Wp-bind _ _ _ (
        Wp-record_intent _ _ _ _ (
          Wp-bind _ _ _ (
            Wp-try_except _ _ _ (
              Wp-call_err _ _ _ broken (
                vend_fault_lem env (authorized (env.clock w.tick) t) _ _ _
                  (lookup-inserted _ _ w.transactions) (from_dispensing f.state e))))))))
