-- ===== src/App/Outcome/Payout.antt =====
-- How the change is settled in `complete_payment` of app/orchestrators/payment_coordinator.py.
use flower_vending_system.Prelude.{
  ℕ, suc, true, false, Option, none, some, ◌∷◌, ◌==◌, ltb, ◌≡◌, refl, arith,
}
use flower_vending_system.Prelude.Int.{pos, ◌-ℤ◌}
use flower_vending_system.Prelude.Dict.{Dict, lookup, insert}
use flower_vending_system.Prelude.Result.{Error}
use flower_vending_system.Domain.Reserve.{Plan, ChangeReserve, plan_total, consume_reserve}
use flower_vending_system.Domain.Statuses.{PayoutStatus}
use flower_vending_system.Domain.Transaction.{
  Transaction, attach_change_reserve, mark_change_pending, mark_change_dispensed,
}
use flower_vending_system.Domain.Status.{MachineState}
use flower_vending_system.Fsm.Transitions.{is_allowed}
use flower_vending_system.Money.Counts.{count_of, IsDict}
use flower_vending_system.Money.Inventory.{
  MoneyInventory, release, consume, new_reserve, with_reserved,
}
use flower_vending_system.Money.Reservation.{accounted, IsCovered, consume-reserve}
use flower_vending_system.Money.Planning.{found, plan_change}
use flower_vending_system.Money.Planning.Sound.{plan_change_sound}
use flower_vending_system.App.World.{
  World, Env, DeviceCall, called, PayoutReply, call_payout, ◌>>=◌, modify, modify_transaction, now,
  require, if_else,
}
use flower_vending_system.App.Change.{
  no_reserve, map_reserve, find_plan, reserve_money, modify_money, release_attached, reserve_due,
  finalize_reserve, settle_payout, pay_reserve, dispense_change,
}
use flower_vending_system.App.Payment.Settle.{pay_change, settle_change}
use flower_vending_system.App.Wp.{Wp, Returns, Wp-bind, Wp-pure, Wp-try_except}
use flower_vending_system.App.Wp.Calls.{Wp-now, Wp-require, Wp-when_yes, Wp-if_else_no}
use flower_vending_system.App.Wp.Writes.{
  Wp-modify, Wp-modify_transaction, Wp-move_to, Wp-sync_state, Wp-record_intent, Wp-record_outcome,
  Wp-publish,
}
use flower_vending_system.App.Outcome.{lookup-inserted}
use flower_vending_system.App.Outcome.Refund.{planned-reserve}

-- The money when the transaction's reserve has been given back.
abbrev pub released : Option ChangeReserve → MoneyInventory → MoneyInventory
released none m = m
released (some r) m = release r.counts m

release_attached_lem :
    (tid : ℕ) (o : Option ChangeReserve) (w : World) {t : Transaction}
    {Q : Unit {0} → World → Type 0} {E : Error → World → Type 0}
    → lookup tid w.transactions ≡ some t
    → t.change_reserve ≡ o
    → ((ts : Dict Transaction)
        → lookup tid ts ≡ some (no_reserve t)
        → Q tt (record w { money = released o w.money; transactions = ts }))
    → Wp (release_attached tid o) Q E w
unfolding release_attached modify_money
release_attached_lem tid none w {t} h e k = Wp-pure _ _ (k w.transactions (rw h (rw e refl)))
release_attached_lem tid (some r) w {t} h e k = Wp-bind _ _ _ (
    Wp-modify _ _
      (Wp-modify_transaction _ _ _ h (k _ (lookup-inserted tid (no_reserve t) w.transactions))))

reserve_due_lem :
    (env : Env) (tid due : ℕ) (w : World) {t : Transaction} {p : Plan}
    {Q : Unit {0} → World → Type 0} {E : Error → World → Type 0}
    → lookup tid w.transactions ≡ some t
    → IsDict w.money.accounting
    → plan_change due w.money ≡ found p
    → Q tt (record w {
      money = with_reserved p w.money;
      transactions =
          insert tid
            (attach_change_reserve (new_reserve tid p w.money) (env.clock w.tick) t)
            w.transactions;
      tick = suc w.tick;
    })
    → Wp (reserve_due env tid due) Q E w
unfolding reserve_due find_plan reserve_money now modify_transaction require modify ◌>>=◌
reserve_due_lem env tid due w h d e k = record {
  post = rw (e, planned-reserve tid due w.money d e, h) k;
}

dispense_change_lem :
    (env : Env) (tid : ℕ) (w : World) {t : Transaction} {r : ChangeReserve}
    {Q : Unit {0} → World → Type 0} {E : Error → World → Type 0}
    → lookup tid w.transactions ≡ some t
    → (t.change_due.minor_units == 0) ≡ false
    → t.change_reserve ≡ some r
    → env.payout w.tick ≡ PayoutReply.paid_out
    → Q tt (record w {
      money = consume r.counts w.money;
      transactions =
          insert tid
            (mark_change_dispensed (env.clock (suc w.tick)) (map_reserve consume_reserve t))
            w.transactions;
      trace = called (DeviceCall.dispense r.counts) ∷ w.trace;
      tick = suc (suc w.tick);
    })
    → Wp (dispense_change env tid) Q E w
unfolding dispense_change pay_reserve settle_payout modify_money call_payout if_else now
    modify_transaction require modify ◌>>=◌
dispense_change_lem env tid w h z o paid k = record { post = rw (h, z, o, paid, h) k }

due_is_positive : (n : ℕ) → (n == 0) ≡ false → ltb 0 n ≡ true
due_is_positive n h = ground arith

-- The change has been paid out of the books by a plan, and the transaction and the machine say so.
pub record IsPaidOut (tid due : ℕ) (p : Plan) (before : MoneyInventory) (w : World) : Type 0 where
  pub worth : plan_total p ≡ due
  pub books : (d : ℕ) → accounted d w.money ≡ accounted d before -ℤ pos (count_of d p)
  pub covered : IsCovered w.money
  pub transaction : Transaction
  pub stored : lookup tid w.transactions ≡ some transaction
  pub dispensed : transaction.payout_status ≡ PayoutStatus.dispensed
  pub state : w.fsm.state ≡ MachineState.dispensing_change

-- The transaction as the settlement from tick `n` changes it.
abbrev attached : Env → ℕ → Plan → MoneyInventory → ℕ → Transaction → Transaction
attached env tid p m n t = attach_change_reserve (new_reserve tid p m) (env.clock n) (no_reserve t)

abbrev pended : Env → ℕ → Plan → MoneyInventory → ℕ → Transaction → Transaction
pended env tid p m n t = mark_change_pending (env.clock (suc n)) (attached env tid p m n t)

abbrev paid_out_change : Env → ℕ → Plan → MoneyInventory → ℕ → Transaction → Transaction
paid_out_change env tid p m n t =
    mark_change_dispensed (env.clock (suc (suc (suc n))))
      (map_reserve consume_reserve (pended env tid p m n t))

-- When a payment is completed with change due, a plan for it is found once the transaction's own
-- reserve is given back, the state machine has an edge to DISPENSING_CHANGE and the dispenser pays,
-- then settling the change returns, and exactly a plan worth the change has left the books; the
-- books list each denomination once, and the pieces still reserved are covered.
pub settle_change-pays :
    (env : Env) (tid : ℕ) (w : World) {t : Transaction} {p : Plan}
    → lookup tid w.transactions ≡ some t
    → (t.change_due.minor_units == 0) ≡ false
    → IsDict (released t.change_reserve w.money).accounting
    → IsCovered (released t.change_reserve w.money)
    → plan_change t.change_due.minor_units (released t.change_reserve w.money) ≡ found p
    → is_allowed w.fsm.state MachineState.dispensing_change ≡ true
    → env.payout (suc (suc w.tick)) ≡ PayoutReply.paid_out
    → Returns
        (settle_change env tid t.change_due.minor_units)
        (λ u w'. IsPaidOut tid t.change_due.minor_units p (released t.change_reserve w.money) w')
        w
unfolding settle_change finalize_reserve pay_change
settle_change-pays env tid w {t} {p} h z d c e a paid =
    let m = released t.change_reserve w.money in
    let sound = plan_change_sound t.change_due.minor_units m d e in
    let after =
      consume-reserve tid p m sound.2 c (planned-reserve tid t.change_due.minor_units m d e) in
    Wp-bind _ _ _ (
      Wp-bind _ _ _ (
        Wp-require _ _ h (
          Wp-bind _ _ _ (
            release_attached_lem tid _ w h refl λ ts h'. Wp-if_else_no _ _ _ _ z (
              reserve_due_lem env tid _ _ h' d e (
                Wp-when_yes _ _ _ (due_is_positive _ z) (
                  Wp-bind _ _ _ (
                    Wp-now _ _ (
                      Wp-bind _ _ _ (
                        Wp-modify_transaction _ _ _
                          (lookup-inserted tid (attached env tid p m w.tick t) ts)
                          (Wp-bind _ _ _ (
                            Wp-move_to _ _ a λ f q. Wp-bind _ _ _ (
                              Wp-sync_state _ (
                                Wp-bind _ _ _ (
                                  Wp-record_intent _ _ _ _ (
                                    Wp-bind _ _ _ (
                                      Wp-publish _ _ (
                                        Wp-bind _ _ _ (
                                          Wp-try_except _ _ _ (
                                            dispense_change_lem env tid _
                                              (lookup-inserted tid (pended env tid p m w.tick t)
                                                (insert tid (attached env tid p m w.tick t) ts))
                                              z refl paid
                                              (Wp-bind _ _ _ (
                                                Wp-record_outcome _ _ _ _ _ (
                                                  Wp-publish _ _ (record {
                                                    worth = sound.0;
                                                    books = λ k. (after.0 k).0;
                                                    covered = after.1;
                                                    transaction =
                                                        paid_out_change env tid p m w.tick t;
                                                    stored =
                                                        lookup-inserted tid
                                                          (paid_out_change env tid p m w.tick t)
                                                          (insert tid (pended env tid p m w.tick t)
                                                            (insert tid
                                                            (attached env tid p m w.tick t) ts));
                                                    dispensed = refl;
                                                    state = q;
                                                  }))))))))))))))))))))))))
