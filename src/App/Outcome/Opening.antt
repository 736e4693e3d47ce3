-- ===== src/App/Outcome/Opening.antt =====
-- How `start_purchase` of app/orchestrators/vending_controller.py ends when everything is ready.
use flower_vending_system.Prelude.{
  ℕ, suc, Bool, true, false, not, ◌||◌, Option, none, some, ◌∷◌, ◌==◌, ltb, is_some, ◌≡◌, refl,
  arith,
}
use flower_vending_system.Prelude.Int.{ℤ}
use flower_vending_system.Prelude.Dict.{lookup, insert}
use flower_vending_system.Prelude.Result.{Error, ok}
use flower_vending_system.Domain.Transaction.{Transaction}
use flower_vending_system.Domain.Slot.{Slot, Product, ensure_sellable}
use flower_vending_system.Domain.Status.{MachineState, set_machine_state, sales_allowed}
use flower_vending_system.Fsm.Engine.{Engine}
use flower_vending_system.Fsm.Transitions.{is_allowed}
use flower_vending_system.App.World.{World, Env, Presence, DeviceCall, called}
use flower_vending_system.App.Services.{
  ensure_selection, create_transaction, make_transaction, get_product, get_slot,
}
use flower_vending_system.App.Vending.{check_slot, select_product, start_purchase}
use flower_vending_system.App.Wp.{Wp, Returns, Wp-bind, Wp-gets, Wp-lift_ok, Wp-pure}
use flower_vending_system.App.Wp.Calls.{Wp-raise_if, Wp-call_presence_ok, Wp-now, Wp-when_yes}
use flower_vending_system.App.Wp.Writes.{
  Wp-modify, Wp-modify_status, Wp-publish, Wp-move_to, Wp-sync_state,
}
use flower_vending_system.App.Outcome.{lookup-inserted}
use flower_vending_system.App.Outcome.Purchase.{ensure_sales_allowed_lem}

-- A purchase is open: its transaction is registered and active, and the machine waits for payment.
pub record IsOpened (tid : ℕ) (t : Transaction) (w : World) : Type 0 where
  pub stored : lookup tid w.transactions ≡ some t
  pub active : w.active_id ≡ some tid
  pub listed : w.status.active_transaction_id ≡ some t.transaction_id
  pub state : w.fsm.state ≡ MachineState.waiting_for_payment
  pub published : w.status.machine_state ≡ MachineState.waiting_for_payment

idle_to_selected :
    (s : MachineState) → s ≡ MachineState.idle → is_allowed s MachineState.product_selected ≡ true
unfolding is_allowed
idle_to_selected s e = rw e refl

selected_to_availability :
    (s : MachineState)
    → s ≡ MachineState.product_selected
    → is_allowed s MachineState.checking_availability ≡ true
unfolding is_allowed
selected_to_availability s e = rw e refl

availability_to_change :
    (s : MachineState)
    → s ≡ MachineState.checking_availability
    → is_allowed s MachineState.checking_change ≡ true
unfolding is_allowed
availability_to_change s e = rw e refl

change_to_payment :
    (s : MachineState)
    → s ≡ MachineState.checking_change
    → is_allowed s MachineState.waiting_for_payment ≡ true
unfolding is_allowed
change_to_payment s e = rw e refl

select_product_lem :
    (w : World) {Q : Unit {0} → World → Type 0} {E : Error → World → Type 0}
    → w.fsm.state ≡ MachineState.idle
    → ((f : Engine)
        → f.state ≡ MachineState.waiting_for_payment
        → Q tt (record w { fsm = f; status = set_machine_state f.state w.status }))
    → Wp select_product Q E w
unfolding select_product
select_product_lem w i h = Wp-bind _ _ _ (
    Wp-move_to _ _ (idle_to_selected _ i) λ f e. Wp-bind _ _ _ (
      Wp-move_to _ _ (selected_to_availability _ e) λ f' e'. Wp-bind _ _ _ (
        Wp-move_to _ _ (availability_to_change _ e') λ f'' e''.
          Wp-bind _ _ _
            (Wp-move_to _ _ (change_to_payment _ e'') λ g e'''. Wp-sync_state _ (h g e''')))))

-- What `start_purchase` asks for: sales are allowed, the product and the slot match and can be
-- sold, the sensor sees the product, and no transaction is active.
pub record IsReady (env : Env) (pid slot : ℕ) (p : Product) (s : Slot) (r : Presence) (w : World)
    : Type 0 where
  pub allowed : sales_allowed w.status ≡ true
  pub product : get_product pid w ≡ ok p
  pub stocked : get_slot slot w ≡ ok s
  pub matching : (s.product_id == p.product_id) ≡ true
  pub sellable : ensure_sellable s (ok s) ≡ ok s
  pub sensor : env.has_slot_sensor ≡ true
  pub seen : env.presence w.tick ≡ some r
  pub certain : (not r.has_product || ltb r.confidence 500) ≡ false
  pub free : w.active_id ≡ none
  pub idle : w.fsm.state ≡ MachineState.idle

module _ (env : Env) (pid slot : ℕ) {p : Product} {s : Slot} {r : Presence}
    {E : Error → World → Type 0} where
  ensure_selection_ok :
      (w : World) {Q : Slot → World → Type 0}
      → IsReady env pid slot p s r w
      → Q s w
      → Wp (ensure_selection pid slot) Q E w
  unfolding ensure_selection
  ensure_selection_ok w ready k = Wp-bind _ _ _ (
      Wp-gets _ _ (
        Wp-bind _ _ _ (
          Wp-lift_ok _ _ ready.product (
            Wp-bind _ _ _ (
              Wp-gets _ _ (
                Wp-bind _ _ _ (
                  Wp-lift_ok _ _ ready.stocked (
                    Wp-bind _ _ _ (
                      Wp-raise_if _ _ _ (λ c. Wp-lift_ok _ _ ready.sellable k)
                        (λ c. absurd (clash _ ready.matching c)))))))))))
    where
      clash : (b : Bool) → b ≡ true → not b ≡ true → ⊥
      clash b e h = ground arith

  check_slot_ok :
      (w : World) {Q : Unit {0} → World → Type 0}
      → IsReady env pid slot p s r w
      → Q tt (record w { trace = called (DeviceCall.read_slot slot) ∷ w.trace; tick = suc w.tick })
      → Wp (check_slot env slot) Q E w
  unfolding check_slot
  check_slot_ok w ready k = Wp-when_yes _ _ _ ready.sensor (
      Wp-bind _ _ _ (
        Wp-call_presence_ok _ _ _ ready.seen
          (Wp-raise_if _ _ _ (λ c. k) (λ c. absurd (clash _ ready.certain c)))))
    where
      clash : (b : Bool) → b ≡ false → b ≡ true → ⊥
      clash b e h = ground arith

create_transaction_ok :
    (env : Env) (cid pid sid : ℕ) (price : ℤ) (currency : ℕ) (w : World) {t : Transaction}
    {Q : Transaction → World → Type 0} {E : Error → World → Type 0}
    → w.active_id ≡ none
    → make_transaction (env.new_id w.tick) cid pid sid price currency (env.clock w.tick) ≡ ok t
    → Q t (record w {
      transactions = insert (env.new_id w.tick) t w.transactions;
      active_id = some (env.new_id w.tick);
      tick = suc w.tick;
    })
    → Wp (create_transaction env cid pid sid price currency) Q E w
unfolding create_transaction
create_transaction_ok env cid pid sid price currency w free made k = Wp-bind _ _ _ (
    Wp-gets _ _ (
      Wp-bind _ _ _ (
        Wp-raise_if _ _ _
          (λ c. Wp-bind _ _ _ (
            Wp-gets _ _ (
              Wp-bind _ _ _ (
                Wp-now _ _ (
                  Wp-bind _ _ _
                    (Wp-lift_ok _ _ made (Wp-bind _ _ _ (Wp-modify _ _ (Wp-pure _ _ k)))))))))
          (λ c. absurd (busy w.active_id free c)))))
  where
    busy : (o : Option ℕ) → o ≡ none → is_some o ≡ true → ⊥
    busy o e h = ground arith

-- A purchase that everything is ready for is opened: the command returns the new transaction's
-- identifier, the transaction is registered and active, and the machine waits for payment.
pub start_purchase-opens :
    (env : Env) (cid pid slot : ℕ) (price : ℤ) (currency : ℕ) (w : World) {p : Product} {s : Slot}
    {r : Presence} {t : Transaction}
    → IsReady env pid slot p s r w
    → make_transaction
        (env.new_id (suc w.tick))
        cid
        pid
        slot
        price
        currency
        (env.clock (suc w.tick))
      ≡ ok t
    → Returns
        (start_purchase env cid pid slot price currency)
        (λ tid w'. (tid ≡ t.transaction_id) × IsOpened (env.new_id (suc w.tick)) t w')
        w
unfolding start_purchase
start_purchase-opens env cid pid slot price currency w {p} {s} {r} {t} ready made = Wp-bind _ _ _ (
    ensure_sales_allowed_lem _
      (λ a. Wp-bind _ _ _ (
        ensure_selection_ok env pid slot w ready (
          Wp-bind _ _ _ (
            check_slot_ok env pid slot w ready (
              Wp-bind _ _ _ (
                create_transaction_ok env _ _ _ _ _ _ ready.free made (
                  Wp-bind _ _ _ (
                    Wp-modify_status _ _ (
                      Wp-bind _ _ _ (
                        select_product_lem _ ready.idle λ f e. Wp-bind _ _ _ (
                          Wp-publish _ _ (
                            Wp-pure _ _ (
                              refl,
                              record {
                                stored = lookup-inserted (env.new_id (suc w.tick)) t w.transactions;
                                active = refl;
                                listed = refl;
                                state = e;
                                published = e;
                              },
                            )))))))))))))
      (λ a. clash _ ready.allowed a))
  where
    clash : (b : Bool) → b ≡ true → b ≡ false → ⊥
    clash b e h = ground arith
