-- ===== src/App/Outcome/Delivery.antt =====
-- How `handle_vend_authorized` of app/orchestrators/vending_controller.py ends when the devices work.
use flower_vending_system.Prelude.{ℕ, suc, ◌+◌, true, some, List, ◌≡◌, refl, arith, is_some}
use flower_vending_system.Prelude.Dict.{Dict, lookup, insert, lookup-insert}
use flower_vending_system.Prelude.Result.{Error, ok}
use flower_vending_system.Domain.Statuses.{TransactionStatus, is_waiting_for_pickup}
use flower_vending_system.Domain.Transaction.{
  Transaction, mark_product_dispensed, mark_window_opened,
}
use flower_vending_system.Domain.Slot.{Slot, decrement}
use flower_vending_system.Domain.Status.{MachineState}
use flower_vending_system.Fsm.Transitions.{is_allowed}
use flower_vending_system.App.World.{Effect, JournalEntry, World, Env}
use flower_vending_system.App.Services.{mark_vended, get_slot}
use flower_vending_system.App.Pickup.{arm, arm_found, handle_delivery_window_opened}
use flower_vending_system.App.Wp.{Wp, Returns, Wp-bind, Wp-gets, Wp-lift_ok, Wp-try_except}
use flower_vending_system.App.Wp.Calls.{Wp-now, Wp-publish_to, Wp-call_ok}
use flower_vending_system.App.Wp.Writes.{
  Wp-modify_transaction, Wp-modify, Wp-record_intent, Wp-publish, Wp-move_to, Wp-sync_state,
  Wp-record_outcome,
}
use flower_vending_system.App.Outcome.{lookup-inserted}
use flower_vending_system.App.Dispense.{
  run_motor, open_delivery_window, deliver, handle_vend_authorized,
}
use flower_vending_system.App.Outcome.Vend.{is_paid, authorized, authorize_lem}

dispensing_to_opening :
    (s : MachineState)
    → s ≡ MachineState.dispensing_product
    → is_allowed s MachineState.opening_delivery_window ≡ true
unfolding is_allowed
dispensing_to_opening s e = rw e refl

opening_to_waiting :
    (s : MachineState)
    → s ≡ MachineState.opening_delivery_window
    → is_allowed s MachineState.waiting_for_customer_pickup ≡ true
unfolding is_allowed
opening_to_waiting s e = rw e refl

-- The product is out and the window is open: one piece has left the slot, and the transaction
-- and the machine wait for the customer with a deadline.
pub record IsWaiting (t : Transaction) (s : Slot) (w : World) : Type 0 where
  pub stored : lookup t.transaction_id w.transactions ≡ some t
  pub status : t.status ≡ TransactionStatus.waiting_for_customer_pickup
  pub state : w.fsm.state ≡ MachineState.waiting_for_customer_pickup
  pub stock : lookup t.slot_id w.slots ≡ some s
  pub armed : is_some (lookup t.transaction_id w.deadlines) ≡ true

mark_vended_lem :
    (sid : ℕ) (w : World) {Q : Unit {0} → World → Type 0} {E : Error → World → Type 0} {s s' : Slot}
    → lookup sid w.slots ≡ some s
    → decrement s ≡ ok s'
    → Q tt (record w { slots = insert sid s' w.slots })
    → Wp (mark_vended sid) Q E w
unfolding mark_vended get_slot
mark_vended_lem sid w h d k = Wp-bind _ _ _ (
    Wp-gets _ _ (
      Wp-bind _ _ _ (
        Wp-lift_ok _ _ (rw (get_slot, h) refl)
          (Wp-bind _ _ _ (Wp-lift_ok _ _ d (Wp-modify _ _ k))))))

run_motor_lem :
    (env : Env) (t : Transaction) (w : World) {Q : Unit {0} → World → Type 0}
    {E : Error → World → Type 0}
    → env.vend_ok w.tick ≡ true
    → ((j : List JournalEntry) (tr : List Effect)
        → Q tt (record w { journal = j; trace = tr; tick = suc w.tick }))
    → Wp (run_motor env t) Q E w
unfolding run_motor
run_motor_lem env t w ready k = Wp-bind _ _ _ (
    Wp-record_intent _ _ _ _ (
      Wp-bind _ _ _
        (Wp-try_except _ _ _ (Wp-call_ok _ _ _ ready (Wp-record_outcome _ _ _ _ _ (k _ _))))))

open_delivery_window_lem :
    (env : Env) (tid : ℕ) (w : World) {Q : Unit {0} → World → Type 0} {E : Error → World → Type 0}
    → env.open_ok w.tick ≡ true
    → ((j : List JournalEntry) (tr : List Effect)
        → Q tt (record w { journal = j; trace = tr; tick = suc w.tick }))
    → Wp (open_delivery_window env tid) Q E w
unfolding open_delivery_window
open_delivery_window_lem env tid w ready k = Wp-bind _ _ _ (
    Wp-record_intent _ _ _ _ (
      Wp-bind _ _ _
        (Wp-try_except _ _ _ (Wp-call_ok _ _ _ ready (Wp-record_outcome _ _ _ _ _ (k _ _))))))

abbrev after_delivery : Env → ℕ → Transaction → Transaction
after_delivery env n t =
    mark_window_opened (env.clock (suc (suc n))) (mark_product_dispensed (env.clock n) t)

arm-is_some :
    (timeout : ℕ) (t : Transaction) (ts : Dict Transaction) (ds : Dict ℕ)
    → is_waiting_for_pickup t.status ≡ true
    → is_some (
        lookup t.transaction_id
          (arm_found timeout (lookup t.transaction_id (insert t.transaction_id t ts)) ds))
      ≡ true
unfolding arm
arm-is_some timeout t ts ds waiting =
    rw (lookup-inserted t.transaction_id t ts, waiting)
      (ground (arith, lookup-insert t.transaction_id t.transaction_id (t.updated_at + timeout) ds))

deliver_lem :
    (env : Env) (timeout : ℕ) (t : Transaction) (w : World) {s s' : Slot}
    → lookup t.transaction_id w.transactions ≡ some t
    → w.fsm.state ≡ MachineState.dispensing_product
    → lookup t.slot_id w.slots ≡ some s
    → decrement s ≡ ok s'
    → env.open_ok (suc w.tick) ≡ true
    → Returns (deliver env timeout t) (λ u w'. IsWaiting (after_delivery env w.tick t) s' w') w
unfolding deliver handle_delivery_window_opened
deliver_lem env timeout t w h e stock d opens = Wp-bind _ _ _ (
    mark_vended_lem _ _ stock d (
      Wp-bind _ _ _ (
        Wp-now _ _ (
          Wp-bind _ _ _ (
            Wp-modify_transaction _ _ _ h (
              Wp-bind _ _ _ (
                Wp-publish _ _ (
                  Wp-bind _ _ _ (
                    Wp-move_to _ _ (dispensing_to_opening _ e) λ f e'.
                      (Wp-bind _ _ _ (
                        Wp-sync_state _ (
                          Wp-bind _ _ _ (
                            open_delivery_window_lem _ _ _ opens λ j tr. Wp-bind _ _ _ (
                              Wp-now _ _ (
                                Wp-bind _ _ _ (
                                  Wp-modify_transaction _ _ _ (lookup-inserted _ _ w.transactions) (
                                    Wp-bind _ _ _ (
                                      Wp-move_to _ _ (opening_to_waiting _ e') λ g e''.
                                        (Wp-bind _ _ _ (
                                          Wp-sync_state _ (
                                            Wp-publish_to _ _ _ record {
                                              stored = lookup-inserted _ _ (
                                                  insert t.transaction_id
                                                    (mark_product_dispensed (env.clock w.tick) t)
                                                    w.transactions);
                                              status = refl;
                                              state = e'';
                                              stock = lookup-inserted _ _ w.slots;
                                              armed =
                                                  arm-is_some timeout (after_delivery env w.tick t)
                                                    (insert t.transaction_id
                                                      (mark_product_dispensed (env.clock w.tick) t)
                                                      w.transactions)
                                                    w.deadlines refl;
                                            })))))))))))))))))))))

abbrev pub vended : Env → ℕ → Transaction → Transaction
vended env n t = after_delivery env (suc (suc n)) (authorized (env.clock n) t)

-- With a paid transaction in the registry, an edge to DISPENSING_PRODUCT, a slot that can sell and
-- a motor and a window that work, the vend handler returns: the transaction is authorized,
-- dispensed and shown at the open window, one piece has left the slot, the machine waits for the
-- customer, and the pick-up has a deadline.
pub handle_vend_authorized-delivers :
    (env : Env) (timeout : ℕ) (t : Transaction) (w : World) {s s' : Slot}
    → lookup t.transaction_id w.transactions ≡ some t
    → is_paid t ≡ true
    → is_allowed w.fsm.state MachineState.dispensing_product ≡ true
    → lookup t.slot_id w.slots ≡ some s
    → decrement s ≡ ok s'
    → env.vend_ok (suc w.tick) ≡ true
    → env.open_ok (suc (suc (suc w.tick))) ≡ true
    → Returns
        (handle_vend_authorized env timeout t.transaction_id)
        (λ u w'. IsWaiting (vended env w.tick t) s' w')
        w
unfolding handle_vend_authorized
handle_vend_authorized-delivers env timeout t w h paid a stock d vends opens = Wp-bind _ _ _ (
    authorize_lem env t w h paid a λ f s tr e. Wp-bind _ _ _ (
      run_motor_lem env (authorized (env.clock w.tick) t) _ vends λ j tr'.
        deliver_lem env timeout (authorized (env.clock w.tick) t) _
          (lookup-inserted _ _ w.transactions) e stock d opens))
