-- ===== src/App/Keeps/Commands.antt =====
-- The purchase, service and health handlers keep a stable invariant:
-- app/orchestrators/vending_controller.py, service_mode_coordinator.py and health_monitor.py.
use flower_vending_system.Prelude.{ℕ, Bool, true, false, some, ◌≡◌, refl}
use flower_vending_system.Prelude.Int.{ℤ}
use flower_vending_system.Prelude.Dict.{insert}
use flower_vending_system.Prelude.Result.{Result, ok, err}
use flower_vending_system.Domain.Transaction.{Transaction}
use flower_vending_system.Domain.Status.{Blocker}
use flower_vending_system.App.World.{World, Env, Action, Event, modify, lift, pure, ◌>>=◌, ◌>>◌}
use flower_vending_system.App.Services.{make_transaction, create_transaction, ensure_selection}
use flower_vending_system.App.Registry.{insert-IsKeyed, make_transaction-id}
use flower_vending_system.App.Vending.{
  check_slot, select_product, start_purchase, accept_cash, cancel_purchase, close_failed,
  close_window, complete_sale, handle_confirm_pickup,
}
use flower_vending_system.App.Service.{
  enter_service_mode, exit_service_mode, Reading, Readings, block_while, on_reading, check_devices,
  check_door, check_temperature, poll_health, absent, fails, reads,
}
use flower_vending_system.App.Keeps.{Keeps, keeps_rules}
use flower_vending_system.App.Keeps.Stable.{Stable, writes}
use flower_vending_system.App.Keeps.Guarded.{Keeps-guarded}
use flower_vending_system.App.Keeps.Vend.{Keeps-publish_to, Keeps-handle_pickup_finished}
use flower_vending_system.App.Keeps.Sale.{Keeps-start_cash_session}
use flower_vending_system.App.Keeps.Sale

module _ {P : World → Type 0} (st : Stable P) where
  Keeps-ensure_selection : (pid sid : ℕ) → Keeps P (ensure_selection pid sid)
  unfolding ensure_selection
  Keeps-ensure_selection pid sid = search keeps_rules depth 14

  Keeps-check_slot : (env : Env) (slot : ℕ) → Keeps P (check_slot env slot)
  unfolding check_slot
  Keeps-check_slot env slot = search (keeps_rules, writes)

  -- What `create_transaction` does with the new transaction.
  registered :
      (tid : ℕ) (r : Result Transaction)
      → ((t : Transaction) → r ≡ ok t → t.transaction_id ≡ tid)
      → Keeps P (do
        t ← lift r
        modify (λ w. record w { transactions = insert tid t w.transactions; active_id = some tid })
        pure t)
  unfolding lift modify pure ◌>>=◌
  registered tid (err x) same = record { at = λ w h. h }
  registered tid (ok t) same = record {
    at = λ w h.
        st.on_active _ _
          (st.on_transactions w _ (insert-IsKeyed t tid w.transactions (same t refl)) h);
  }

  Keeps-create_transaction :
      (env : Env) (cid pid sid : ℕ) (price : ℤ) (currency : ℕ)
      → Keeps P (create_transaction env cid pid sid price currency)
  unfolding create_transaction
  Keeps-create_transaction env cid pid sid price currency =
      search (keeps_rules, writes, made) depth 14
    where
      made :
          (tid at : ℕ)
          → Keeps P (do
            t ← lift (make_transaction tid cid pid sid price currency at)
            modify
                (λ w. record w { transactions = insert tid t w.transactions; active_id = some tid })
            pure t)
      made tid at =
          registered tid _ (λ t e. make_transaction-id tid cid pid sid price currency at t e)

  Keeps-select_product : Keeps P select_product
  unfolding select_product
  Keeps-select_product = search (keeps_rules, writes) depth 12

  pub Keeps-start_purchase :
      (env : Env) (cid pid slot : ℕ) (price : ℤ) (currency : ℕ)
      → Keeps P (start_purchase env cid pid slot price currency)
  unfolding start_purchase
  Keeps-start_purchase env cid pid slot price currency =
      search
        (
          keeps_rules, writes, Keeps-ensure_selection, Keeps-check_slot, Keeps-create_transaction,
          Keeps-select_product,
        )
        depth 18

  pub Keeps-accept_cash : (env : Env) (tid : ℕ) → Keeps P (accept_cash env tid)
  unfolding accept_cash
  Keeps-accept_cash env tid = search (keeps_rules, Keeps-start_cash_session)

  pub Keeps-cancel_purchase : (env : Env) (tid : ℕ) → Keeps P (cancel_purchase env tid)
  unfolding cancel_purchase
  Keeps-cancel_purchase env tid = search (keeps_rules, writes, Sale.Keeps-cancel_purchase) depth 12

  Keeps-close_window : (env : Env) (tid : ℕ) → Keeps P (close_window env tid)
  unfolding close_window close_failed
  Keeps-close_window env tid =
      Keeps-guarded st _ _ _ _ _ _ _ refl (λ e. search (keeps_rules, writes) depth 14)
        (search writes)

  Keeps-complete_sale : (env : Env) (t : Transaction) → Keeps P (complete_sale env t)
  unfolding complete_sale
  Keeps-complete_sale env t =
      search (keeps_rules, writes, Keeps-publish_to, Keeps-handle_pickup_finished) depth 24

  pub Keeps-handle_confirm_pickup : (env : Env) (tid : ℕ) → Keeps P (handle_confirm_pickup env tid)
  unfolding handle_confirm_pickup
  Keeps-handle_confirm_pickup env tid =
      search (keeps_rules, writes, Keeps-close_window, Keeps-complete_sale) depth 18

  pub Keeps-enter_service_mode : Keeps P enter_service_mode
  unfolding enter_service_mode
  Keeps-enter_service_mode = search (keeps_rules, writes) depth 14

  pub Keeps-exit_service_mode : Keeps P exit_service_mode
  unfolding exit_service_mode
  Keeps-exit_service_mode = search (keeps_rules, writes) depth 14

  Keeps-block_while : (c : Bool) (b : Blocker) (e : Event) → Keeps P (block_while c b e)
  unfolding block_while
  Keeps-block_while true b e = search (keeps_rules, writes)
  Keeps-block_while false b e = search writes

  Keeps-on_reading :
      {A : Type 0} (f : A → Action (Unit {0})) (r : Reading A)
      → ((a : A) → Keeps P (f a))
      → Keeps P (on_reading f r)
  unfolding on_reading
  Keeps-on_reading f absent k = search keeps_rules
  Keeps-on_reading f fails k = search keeps_rules
  Keeps-on_reading f (reads a) k = k a

  pub Keeps-poll_health : (critical : ℤ) (r : Readings) → Keeps P (poll_health critical r)
  unfolding poll_health check_devices check_door check_temperature
  Keeps-poll_health critical r = search (keeps_rules, Keeps-on_reading, Keeps-block_while) depth 12
