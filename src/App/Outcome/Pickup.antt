-- ===== src/App/Outcome/Pickup.antt =====
-- How `confirm_pickup` of app/orchestrators/vending_controller.py ends.
use flower_vending_system.Prelude.{ℕ, suc, true, none, some, ◌≡◌, Option, refl}
use flower_vending_system.Prelude.Dict.{lookup}
use flower_vending_system.Domain.Transaction.{Transaction, confirm_pickup, mark_window_closed}
use flower_vending_system.Domain.Status.{MachineState}
use flower_vending_system.Fsm.Transitions.{is_allowed}
use flower_vending_system.App.World.{World, Env}
use flower_vending_system.App.Pickup.{handle_pickup_finished}
use flower_vending_system.App.Vending.{close_window, complete_sale, handle_confirm_pickup}
use flower_vending_system.App.Wp.{Returns, Wp-bind, Wp-pure, Wp-map, Wp-try_except}
use flower_vending_system.App.Wp.Calls.{Wp-require, Wp-publish_to, Wp-now, Wp-call_ok}
use flower_vending_system.App.Wp.Writes.{
  Wp-modify_transaction, Wp-modify_status, Wp-move_to, Wp-sync_state, Wp-clear_active,
  Wp-record_intent, Wp-record_outcome,
}
use flower_vending_system.App.Outcome.{lookup-inserted}
use flower_vending_system.App.Outcome.Recover.{IsDropped, cleared-IsDropped}

closing_to_completed :
    (s : MachineState)
    → s ≡ MachineState.closing_delivery_window
    → is_allowed s MachineState.completed ≡ true
unfolding is_allowed
closing_to_completed s e = rw e refl

completed_to_idle :
    (s : MachineState) → s ≡ MachineState.completed → is_allowed s MachineState.idle ≡ true
unfolding is_allowed
completed_to_idle s e = rw e refl

-- The sale is over: the transaction is `t` and no longer the active one, the published status lists
-- none, and the machine is idle.
pub record IsSold (tid : ℕ) (t : Transaction) (before : Option ℕ) (w : World) : Type 0 where
  pub stored : lookup tid w.transactions ≡ some t
  pub state : w.fsm.state ≡ MachineState.idle
  pub published : w.status.machine_state ≡ MachineState.idle
  pub unlisted : w.status.active_transaction_id ≡ none
  pub active : IsDropped tid before w.active_id

-- What a pick-up that is confirmed at tick `n` makes of the transaction.
abbrev pub picked_up : Env → ℕ → Transaction → Transaction
picked_up env n t = mark_window_closed (env.clock (suc (suc n))) (confirm_pickup (env.clock n) t)

complete_sale_lem :
    (env : Env) (t : Transaction) (w : World) {t' : Transaction}
    → lookup t.transaction_id w.transactions ≡ some t'
    → w.fsm.state ≡ MachineState.closing_delivery_window
    → Returns
        (complete_sale env t)
        (λ u w'. IsSold t.transaction_id (mark_window_closed (env.clock w.tick) t') w.active_id w')
        w
unfolding complete_sale handle_pickup_finished
complete_sale_lem env t w {t'} h e = Wp-bind _ _ _ (
    Wp-now _ _ (
      Wp-bind _ _ _ (
        Wp-modify_transaction _ _ _ h (
          Wp-bind _ _ _ (
            Wp-move_to _ _ (closing_to_completed _ e) λ f e'. Wp-bind _ _ _ (
              Wp-publish_to _ _ _ (
                Wp-bind _ _ _ (
                  Wp-publish_to _ _ _ (
                    Wp-bind _ _ _ (
                      Wp-clear_active _ _ (
                        Wp-bind _ _ _ (
                          Wp-modify_status _ _ (
                            Wp-bind _ _ _ (
                              Wp-move_to _ _ (completed_to_idle _ e') λ g e''.
                                Wp-sync_state _ (record {
                                  stored =
                                      lookup-inserted t.transaction_id
                                        (mark_window_closed (env.clock w.tick) t') w.transactions;
                                  state = e'';
                                  published = e'';
                                  unlisted = refl;
                                  active = cleared-IsDropped t.transaction_id w.active_id;
                                })))))))))))))))

-- The customer's confirmation for a registered transaction, in a state from which the window may
-- close and with a window that does close, returns: that transaction is confirmed and completed,
-- the machine is idle, and the published status lists no active transaction. The transaction is no
-- longer the active one; if another one was, that stays active. The call does not ask whether the
-- transaction is the active one, nor whether it is paid or waits for its pick-up.
pub handle_confirm_pickup-completes :
    (env : Env) (t : Transaction) (w : World)
    → lookup t.transaction_id w.transactions ≡ some t
    → is_allowed w.fsm.state MachineState.closing_delivery_window ≡ true
    → env.close_ok (suc w.tick) ≡ true
    → Returns
        (handle_confirm_pickup env t.transaction_id)
        (λ tid w'.
          (tid ≡ t.transaction_id)
          × IsSold t.transaction_id (picked_up env w.tick t) w.active_id w')
        w
unfolding handle_confirm_pickup close_window
handle_confirm_pickup-completes env t w h a closes = Wp-bind _ _ _ (
    Wp-require _ _ h (
      Wp-bind _ _ _ (
        Wp-now _ _ (
          Wp-bind _ _ _ (
            Wp-modify_transaction _ _ _ h (
              Wp-bind _ _ _ (
                Wp-move_to _ _ a λ f e. Wp-bind _ _ _ (
                  Wp-sync_state _ (
                    Wp-bind _ _ _ (
                      Wp-bind _ _ _ (
                        Wp-record_intent _ _ _ _ (
                          Wp-bind _ _ _ (
                            Wp-try_except _ _ _ (
                              Wp-call_ok _ _ _ closes (
                                Wp-record_outcome _ _ _ _ _ (
                                  Wp-bind _ _ _ (
                                    Wp-map (λ u w' sold. Wp-pure _ _ (refl, sold))
                                      (complete_sale_lem env t _
                                        (lookup-inserted t.transaction_id
                                          (confirm_pickup (env.clock w.tick) t) w.transactions)
                                        e))))))))))))))))))
