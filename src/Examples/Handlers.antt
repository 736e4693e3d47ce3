-- ===== src/Examples/Handlers.antt =====
-- The handlers' theorems at work: src/flower_vending/app/orchestrators and
-- src/flower_vending/app/event_bus.py.
use flower_vending_system.Prelude.{true, false, not, ◌&&◌, ◌||◌, List, [], ◌∷◌, contains, ◌≡◌, refl}
use flower_vending_system.Prelude.Int.{pos}
use flower_vending_system.Prelude.Result.{change_unavailable, invariant_violation}
use flower_vending_system.Domain.Statuses.{is_confirmed, is_terminal}
use flower_vending_system.Domain.Slot.{decrement}
use flower_vending_system.Domain.Status.{MachineState}
use flower_vending_system.Domain.Transaction.{mark_faulted}
use flower_vending_system.Fsm.Transitions.{is_allowed}
use flower_vending_system.App.Bus.{Subscription, returned, failed, settle}
use flower_vending_system.App.Bus.Settle.{Publishes, any_interrupted, critical_errors, settle_lem}
use flower_vending_system.App.Recovery.{assess, is_cancel_safe}
use flower_vending_system.App.Recovery.Assess.{is_doubtful, assess_lem}
use flower_vending_system.App.Pickup.{handle_timeout}
use flower_vending_system.App.Dispense.{handle_vend_authorized}
use flower_vending_system.App.Wp.{Returns, Raises}
use flower_vending_system.App.Outcome.{IsStopped}
use flower_vending_system.App.Outcome.Timeout.{timed_out, timed_out_state, handle_timeout_lem}
use flower_vending_system.App.Outcome.Delivery.{IsWaiting, vended, handle_vend_authorized-delivers}
use flower_vending_system.App.Outcome.Vend.{
  IsVendFault, authorized, handle_vend_authorized-unpaid, handle_vend_authorized-motor_fault,
}
use flower_vending_system.Scenarios.{
  shop, shop_with, paying, paid, waiting, good_devices, broken_devices,
}

abbrev subscriptions : List Subscription
subscriptions =
    record { critical = true; result = failed change_unavailable }
    ∷ record { critical = false; result = failed invariant_violation }
    ∷ record { critical = true; result = returned }
    ∷ []

settle_lem_example :
    Publishes (any_interrupted subscriptions) (critical_errors subscriptions) (settle subscriptions)
settle_lem_example = settle_lem subscriptions

assess_lem_example :
    (is_cancel_safe (assess paid).action ≡ (
      not (is_terminal paid.status)
      && (not (is_doubtful paid.status) && not (is_confirmed paid.payment_status))))
    × ((assess paid).operator_required ≡ (
        not (is_terminal paid.status)
        && (is_doubtful paid.status || is_confirmed paid.payment_status)))
assess_lem_example = assess_lem paid

handle_timeout_lem_example :
    Returns
      (handle_timeout good_devices 41 false)
      (λ u w'.
        IsStopped 41 (timed_out good_devices 0 waiting) (timed_out_state good_devices 0) w'
        × (contains 41 w'.handling ≡ false))
      (shop_with waiting MachineState.waiting_for_customer_pickup)
handle_timeout_lem_example =
    handle_timeout_lem good_devices 41 false
      (shop_with waiting MachineState.waiting_for_customer_pickup) refl refl

handle_vend_authorized-unpaid_example :
    Raises
      (handle_vend_authorized good_devices 60 41)
      (λ e w'.
        (e ≡ invariant_violation)
        × (w' ≡ record (shop_with paying MachineState.payment_accepted) { tick = 1 }))
      (shop_with paying MachineState.payment_accepted)
handle_vend_authorized-unpaid_example =
    handle_vend_authorized-unpaid good_devices 60 41
      (shop_with paying MachineState.payment_accepted) refl refl

handle_vend_authorized-motor_fault_example :
    Raises
      (handle_vend_authorized broken_devices 60 41)
      (IsVendFault (mark_faulted 1002 (authorized 1000 paid)) shop.slots)
      (shop_with paid MachineState.payment_accepted)
unfolding is_allowed
handle_vend_authorized-motor_fault_example =
    handle_vend_authorized-motor_fault broken_devices 60 paid
      (shop_with paid MachineState.payment_accepted) refl refl refl refl

handle_vend_authorized-delivers_example :
    Returns
      (handle_vend_authorized good_devices 60 41)
      (λ u w'.
        IsWaiting
          (vended good_devices 0 paid)
          (record {
            slot_id = 3;
            product_id = 7;
            capacity = pos 5;
            quantity = pos 1;
            is_enabled = true;
          })
          w')
      (shop_with paid MachineState.payment_accepted)
unfolding is_allowed decrement
handle_vend_authorized-delivers_example =
    handle_vend_authorized-delivers good_devices 60 paid
      (shop_with paid MachineState.payment_accepted) refl refl refl refl refl refl refl
