-- ===== src/App/Outcome/Purchase.antt =====
-- How `start_purchase` of app/orchestrators/vending_controller.py ends.
use flower_vending_system.Prelude.{
  ℕ, true, false, not, ◌||◌, List, is_some, ◌≡◌, refl, arith, Bool-cases, inl, inr,
}
use flower_vending_system.Prelude.Int.{ℤ}
use flower_vending_system.Prelude.Result.{Error, sale_blocked, concurrency_conflict}
use flower_vending_system.Domain.Transaction.{Transaction}
use flower_vending_system.Domain.Slot.{Slot}
use flower_vending_system.Domain.Status.{sales_allowed}
use flower_vending_system.App.World.{World, Env, Effect, raise_if}
use flower_vending_system.App.Services.{ensure_sales_allowed, ensure_selection, create_transaction}
use flower_vending_system.App.Vending.{check_slot, start_purchase}
use flower_vending_system.App.Wp.{Wp, Raises, Wp-bind, Wp-lift, Wp-gets}
use flower_vending_system.App.Wp.Calls.{Wp-raise_if, Wp-when, Wp-call_presence}

-- Nothing but the clock and the sensors' trace differs.
pub record IsUnchanged (w w' : World) : Type 0 where
  pub fsm : w'.fsm ≡ w.fsm
  pub status : w'.status ≡ w.status
  pub transactions : w'.transactions ≡ w.transactions
  pub active : w'.active_id ≡ w.active_id
  pub money : w'.money ≡ w.money
  pub slots : w'.slots ≡ w.slots
  pub journal : w'.journal ≡ w.journal

-- Either the sensor has been read, or nothing has happened.
ensure_selection_lem :
    (pid sid : ℕ) (w : World) {Q : Slot → World → Type 0} {E : Error → World → Type 0}
    → ((s : Slot) → Q s w)
    → ((e : Error) → E e w)
    → Wp (ensure_selection pid sid) Q E w
unfolding ensure_selection
ensure_selection_lem pid sid w h k = Wp-bind _ _ _ (
    Wp-gets _ _ (
      Wp-bind _ _ _ (
        Wp-lift _ _
          (λ p e. Wp-bind _ _ _ (
            Wp-gets _ _ (
              Wp-bind _ _ _ (
                Wp-lift _ _
                  (λ s e'.
                    Wp-bind _ _ _
                      (Wp-raise_if _ _ _ (λ c. Wp-lift _ _ (λ s' e''. h s') k) (λ c. k _)))
                  k))))
          k)))

check_slot_lem :
    (env : Env) (slot : ℕ) (w : World) {Q : Unit {0} → World → Type 0} {E : Error → World → Type 0}
    → ((w' : World) → IsUnchanged w w' → Q tt w')
    → ((e : Error) (w' : World) → IsUnchanged w w' → E e w')
    → Wp (check_slot env slot) Q E w
unfolding check_slot
check_slot_lem env slot w h k =
    Wp-when _ _ _
      (λ c. Wp-bind _ _ _ (
        Wp-call_presence _ _ _ (λ p e. Wp-raise_if _ _ _ (λ c'. h _ same) (λ c'. k _ _ same))
          (k _ _ same)))
      (λ c. h w same)
  where
    same : {j : List Effect} {n : ℕ} → IsUnchanged w (record w { trace = j; tick = n })
    same = record {
      fsm = refl;
      status = refl;
      transactions = refl;
      active = refl;
      money = refl;
      slots = refl;
      journal = refl;
    }

pub ensure_sales_allowed_lem :
    (w : World) {Q : Unit {0} → World → Type 0} {E : Error → World → Type 0}
    → (sales_allowed w.status ≡ true → Q tt w)
    → (sales_allowed w.status ≡ false → E sale_blocked w)
    → Wp ensure_sales_allowed Q E w
unfolding ensure_sales_allowed raise_if
ensure_sales_allowed_lem w h k = elim (Bool-cases (sales_allowed w.status)) [
  | inl e ↦ record { post = rw e (h e) }
  | inr e ↦ record { post = rw e (k e) }
]

create_transaction-active :
    (env : Env) (cid pid sid : ℕ) (price : ℤ) (currency : ℕ) (w : World)
    {Q : Transaction → World → Type 0} {E : Error → World → Type 0}
    → is_some w.active_id ≡ true
    → E concurrency_conflict w
    → Wp (create_transaction env cid pid sid price currency) Q E w
unfolding create_transaction
create_transaction-active env cid pid sid price currency w h k =
    Wp-bind _ _ _ (Wp-gets _ _ (Wp-bind _ _ _ (Wp-raise_if _ _ _ (λ c. ground arith) (λ c. k))))

-- While sales are blocked, or a transaction is active, a purchase is refused: the command raises,
-- and the machine, its transactions, its money, its stock and its journal are as they were.
pub start_purchase-refused :
    (env : Env) (cid pid slot : ℕ) (price : ℤ) (currency : ℕ) (w : World)
    → (not (sales_allowed w.status) || is_some w.active_id) ≡ true
    → Raises (start_purchase env cid pid slot price currency) (λ e w'. IsUnchanged w w') w
unfolding start_purchase
start_purchase-refused env cid pid slot price currency w h = Wp-bind _ _ _ (
    ensure_sales_allowed_lem _
      (λ a. Wp-bind _ _ _ (
        ensure_selection_lem _ _ _
          (λ s. Wp-bind _ _ _ (
            check_slot_lem env slot _
              (λ w' u. Wp-bind _ _ _ (create_transaction-active env _ _ _ _ _ _ (busy w' u a) u))
              (λ e w' u. u)))
          (λ e. as_before)))
      (λ a. as_before))
  where
    as_before : IsUnchanged w w
    as_before = record {
      fsm = refl;
      status = refl;
      transactions = refl;
      active = refl;
      money = refl;
      slots = refl;
      journal = refl;
    }

    busy :
        (w' : World)
        → IsUnchanged w w'
        → sales_allowed w.status ≡ true
        → is_some w'.active_id ≡ true
    busy w' u a = rw u.active (ground arith)
