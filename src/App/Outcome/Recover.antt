-- ===== src/App/Outcome/Recover.antt =====
-- How `recover_transaction` of app/orchestrators/recovery_manager.py ends.
use flower_vending_system.Prelude.{
  ℕ, true, false, Option, ◌≢◌, none, some, List, [], ◌∷◌, ◌≡◌, refl, arith, ◌⊎◌, inr,
}
use flower_vending_system.Prelude.Dict.{lookup}
use flower_vending_system.Prelude.Result.{Error, manual_intervention_required}
use flower_vending_system.Domain.Transaction.{Transaction, cancel}
use flower_vending_system.Domain.Status.{
  MachineState, Blocker, set_machine_state, block, has_blocker, discard_blocker,
}
use flower_vending_system.Fsm.Engine.{Engine}
use flower_vending_system.Fsm.Transitions.{is_allowed}
use flower_vending_system.App.World.{World, Env}
use flower_vending_system.App.Services.{cleared}
use flower_vending_system.App.Recovery.{
  assess, is_cancel_safe, enter_recovery, cancel_safely, recover_transaction,
}
use flower_vending_system.App.Wp.{Wp, Returns, Raises, Wp-bind, Wp-raise, Wp-pure}
use flower_vending_system.App.Wp.Calls.{Wp-require, Wp-now, Wp-when_yes, Wp-when_no}
use flower_vending_system.App.Wp.Writes.{
  Wp-publish, Wp-modify_transaction, Wp-modify_status, Wp-unblock_sales, Wp-move_to,
  Wp-move_or_force, Wp-sync_state, Wp-block_sales, Wp-clear_active,
}
use flower_vending_system.App.Outcome.{IsStopped, lookup-inserted, block-no_sales, block-no_vending}

recovery_to_idle :
    (s : MachineState) → s ≡ MachineState.recovery_pending → is_allowed s MachineState.idle ≡ true
unfolding is_allowed
recovery_to_idle s e = rw e refl

enter_recovery_lem :
    {Q : Unit {0} → World → Type 0} {E : Error → World → Type 0} (w : World)
    → ((f : Engine)
        → f.state ≡ MachineState.recovery_pending
        → Q tt (record w {
          fsm = f;
          status = block Blocker.recovery_pending (set_machine_state f.state w.status);
        }))
    → Wp enter_recovery Q E w
unfolding enter_recovery
enter_recovery_lem w k =
    Wp-bind _ _ _
      (Wp-move_or_force _ _ λ f e. Wp-bind _ _ _ (Wp-sync_state _ (Wp-block_sales _ _ (k f e))))

-- A transaction whose plan requires an operator is left as it is: the command raises, the machine
-- is in RECOVERY_PENDING, and nothing is sold.
pub recover_transaction-operator :
    (env : Env) (tid : ℕ) (w : World) {t : Transaction}
    → lookup tid w.transactions ≡ some t
    → (assess t).operator_required ≡ true
    → Raises
        (recover_transaction env tid)
        (λ e w'.
          (e ≡ manual_intervention_required) × IsStopped tid t MachineState.recovery_pending w')
        w
unfolding recover_transaction
recover_transaction-operator env tid w {t} h o = Wp-bind _ _ _ (
    Wp-require _ _ h (
      Wp-bind _ _ _ (
        enter_recovery_lem _ λ f e. Wp-bind _ _ _ (
          Wp-publish _ _ (
            Wp-bind _ _ _ (
              Wp-when_yes _ _ _ o (
                Wp-bind _ _ _ (
                  Wp-publish _ _ (
                    Wp-raise _ _ (
                      refl,
                      record {
                        stored = h;
                        state = e;
                        published = e;
                        no_sales =
                            block-no_sales Blocker.recovery_pending
                              (set_machine_state f.state w.status);
                        no_vending =
                            block-no_vending Blocker.recovery_pending
                              (set_machine_state f.state w.status);
                      },
                    ))))))))))

-- Which transaction is active once `tid` is no longer: none if it was the active one, and else the
-- one that was.
abbrev pub IsDropped : ℕ → Option ℕ → Option ℕ → Type 0
IsDropped tid before after =
    ((before ≡ some tid) × (after ≡ none)) ⊎ ((before ≢ some tid) × (after ≡ before))

-- The transaction is cancelled and no longer the active one, the published status lists none, the
-- machine is idle, and the recovery no longer blocks sales.
pub record IsReleased (tid : ℕ) (t : Transaction) (before : Option ℕ) (w : World) : Type 0 where
  pub stored : lookup tid w.transactions ≡ some t
  pub state : w.fsm.state ≡ MachineState.idle
  pub published : w.status.machine_state ≡ MachineState.idle
  pub unlisted : w.status.active_transaction_id ≡ none
  pub active : IsDropped tid before w.active_id
  pub unblocked : has_blocker Blocker.recovery_pending w.status.sale_blockers ≡ false

pub cleared-IsDropped : (tid : ℕ) (o : Option ℕ) → IsDropped tid o (cleared tid o)
cleared-IsDropped tid none = inr (λ h. ground arith, refl)
cleared-IsDropped tid (some a) = ground arith

discard-none : (b : Blocker) (bs : List Blocker) → has_blocker b (discard_blocker b bs) ≡ false
unfolding discard_blocker
discard-none b [] = refl
discard-none b (x ∷ bs) = ground (arith, discard-none b bs)

-- A transaction that is safe to cancel is cancelled: the command returns its plan, the machine is
-- idle, the published status lists no active transaction, and the recovery no longer blocks sales.
-- The transaction is no longer the active one; if another one was, that stays active.
pub recover_transaction-cancels :
    (env : Env) (tid : ℕ) (w : World) {t : Transaction}
    → lookup tid w.transactions ≡ some t
    → (assess t).operator_required ≡ false
    → is_cancel_safe (assess t).action ≡ true
    → Returns
        (recover_transaction env tid)
        (λ p w'. (p ≡ assess t) × IsReleased tid (cancel (env.clock w.tick) t) w.active_id w')
        w
unfolding recover_transaction cancel_safely
recover_transaction-cancels env tid w {t} h o c = Wp-bind _ _ _ (
    Wp-require _ _ h (
      Wp-bind _ _ _ (
        enter_recovery_lem _ λ f e. Wp-bind _ _ _ (
          Wp-publish _ _ (
            Wp-bind _ _ _ (
              Wp-when_no _ _ _ o (
                Wp-bind _ _ _ (
                  Wp-when_yes _ _ _ c (
                    Wp-bind _ _ _ (
                      Wp-now _ _ (
                        Wp-bind _ _ _ (
                          Wp-modify_transaction _ _ _ h (
                            Wp-bind _ _ _ (
                              Wp-clear_active _ _ (
                                Wp-bind _ _ _ (
                                  Wp-modify_status _ _ (
                                    Wp-bind _ _ _ (
                                      Wp-unblock_sales _ _ (
                                        Wp-bind _ _ _ (
                                          Wp-move_to _ _ (recovery_to_idle _ e) λ g e'.
                                            Wp-bind _ _ _ (
                                              Wp-sync_state _ (
                                                Wp-publish _ _ (
                                                  Wp-pure _ _ (
                                                    refl,
                                                    record {
                                                      stored =
                                                          lookup-inserted tid
                                                            (cancel (env.clock w.tick) t)
                                                            w.transactions;
                                                      state = e';
                                                      published = e';
                                                      unlisted = refl;
                                                      active = cleared-IsDropped tid w.active_id;
                                                      unblocked =
                                                          discard-none Blocker.recovery_pending _;
                                                    },
                                                  ))))))))))))))))))))))))
