-- ===== src/App/Keeps/Vend.antt =====
-- Vending keeps a stable invariant: app/orchestrators/vending_controller.py.
use flower_vending_system.Prelude.{ℕ, Bool, Option, none, some, [], ◌∷◌, refl}
use flower_vending_system.Prelude.Dict.{Dict}
use flower_vending_system.Prelude.Result.{Error}
use flower_vending_system.Domain.Reserve.{ChangeReserve}
use flower_vending_system.Domain.Transaction.{Transaction}
use flower_vending_system.Domain.Slot.{Slot}
use flower_vending_system.App.World.{World, Env, Action, ActionName, LogicalStep, Event, modify}
use flower_vending_system.App.Bus.{publish_to, settle, result_of}
use flower_vending_system.App.Services.{mark_vended}
use flower_vending_system.App.Change.{release_attached, finalize_reserve}
use flower_vending_system.App.Pickup.{handle_delivery_window_opened, handle_pickup_finished}
use flower_vending_system.App.Dispense.{
  vend_fault, run_motor, open_delivery_window, authorize, deliver, handle_vend_authorized,
}
use flower_vending_system.App.Keeps.{Keeps, keeps_rules, Keeps-bind}
use flower_vending_system.App.Keeps.Stable.{Stable, writes, Keeps-modify, Keeps-publish}
use flower_vending_system.App.Keeps.Guarded.{Keeps-guarded}

module _ {P : World → Type 0} (st : Stable P) where
  pub Keeps-publish_to :
      (c : Bool) (m : Action (Unit {0})) (e : Event) → Keeps P m → Keeps P (publish_to c m e)
  unfolding publish_to
  Keeps-publish_to c m e k = Keeps-bind _ _ (Keeps-publish st e) (λ u. handled)
    where
      handled : Keeps P (λ w.
          let (r, w') = m w in (settle (record { critical = c; result = result_of r } ∷ []), w'))
      handled = record { at = λ w h. k.at w h }

  pub Keeps-handle_pickup_finished : (tid : ℕ) → Keeps P (handle_pickup_finished tid)
  unfolding handle_pickup_finished
  Keeps-handle_pickup_finished tid = Keeps-modify _ (λ w h. st.on_deadlines w _ h)

  Keeps-handle_delivery_window_opened :
      (timeout tid : ℕ) → Keeps P (handle_delivery_window_opened timeout tid)
  unfolding handle_delivery_window_opened
  Keeps-handle_delivery_window_opened timeout tid = Keeps-modify _ (λ w h. st.on_deadlines w _ h)

  Keeps-mark_vended : (sid : ℕ) → Keeps P (mark_vended sid)
  unfolding mark_vended
  Keeps-mark_vended sid = search (keeps_rules, set_slots) depth 12
    where
      set_slots : (f : World → Dict Slot) → Keeps P (modify (λ w. record w { slots = f w }))
      set_slots f = Keeps-modify _ (λ w h. st.on_slots w _ h)

  pub Keeps-release_attached :
      (tid : ℕ) (r : Option ChangeReserve) → Keeps P (release_attached tid r)
  unfolding release_attached
  Keeps-release_attached tid none = search keeps_rules
  Keeps-release_attached tid (some r) = search (keeps_rules, writes)

  pub Keeps-finalize_reserve : (env : Env) (tid : ℕ) → Keeps P (finalize_reserve env tid)
  unfolding finalize_reserve
  Keeps-finalize_reserve env tid = search (keeps_rules, writes, Keeps-release_attached) depth 14

  Keeps-vend_fault :
      (env : Env) (tid : ℕ) (a : ActionName) (s : LogicalStep) (e : Error)
      → Keeps P (vend_fault env tid a s e)
  unfolding vend_fault
  Keeps-vend_fault env tid a s e = search (keeps_rules, writes) depth 14

  Keeps-run_motor : (env : Env) (t : Transaction) → Keeps P (run_motor env t)
  unfolding run_motor
  Keeps-run_motor env t =
      Keeps-guarded st _ _ _ _ _ _ _ refl (λ e. Keeps-vend_fault env _ _ _ e) (search writes)

  Keeps-open_delivery_window : (env : Env) (tid : ℕ) → Keeps P (open_delivery_window env tid)
  unfolding open_delivery_window
  Keeps-open_delivery_window env tid =
      Keeps-guarded st _ _ _ _ _ _ _ refl (λ e. Keeps-vend_fault env _ _ _ e) (search writes)

  Keeps-authorize : (env : Env) (tid : ℕ) → Keeps P (authorize env tid)
  unfolding authorize
  Keeps-authorize env tid = search (keeps_rules, writes) depth 16

  Keeps-deliver : (env : Env) (timeout : ℕ) (t : Transaction) → Keeps P (deliver env timeout t)
  unfolding deliver
  Keeps-deliver env timeout t =
      search
        (
          keeps_rules, writes, Keeps-mark_vended, Keeps-open_delivery_window, Keeps-publish_to,
          Keeps-handle_delivery_window_opened,
        )
        depth 24

  pub Keeps-handle_vend_authorized :
      (env : Env) (timeout tid : ℕ) → Keeps P (handle_vend_authorized env timeout tid)
  unfolding handle_vend_authorized
  Keeps-handle_vend_authorized env timeout tid =
      search (keeps_rules, Keeps-authorize, Keeps-run_motor, Keeps-deliver)
