-- ===== src/Examples/Fsm.antt =====
-- The state machine's and the transaction's theorems at work: src/flower_vending/app/fsm and
-- src/flower_vending/domain/entities.
use flower_vending_system.Prelude.{◌≤◌, ◌<◌, ◌+◌, ◌≡◌, ◌≢◌, ◌⊎◌, refl}
use flower_vending_system.Prelude.Result.{ok, err, value_error, invariant_violation}
use flower_vending_system.Domain.Transaction.{confirm_payment, confirmed_transaction}
use flower_vending_system.Domain.Transaction.Payment.{confirm_payment_lem}
use flower_vending_system.Domain.Status.{MachineState}
use flower_vending_system.Fsm.Transitions.{is_allowed}
use flower_vending_system.Fsm.Graph.{Route, Visits, delivery_needs_payment}
use flower_vending_system.Scenarios.{paying}

sale_route : Route MachineState.idle MachineState.payment_accepted
unfolding is_allowed
sale_route =
    Route.step {t = MachineState.accepting_cash}
      (Route.step {t = MachineState.waiting_for_payment}
        (Route.step {t = MachineState.checking_change}
          (Route.step {t = MachineState.checking_availability}
            (Route.step {t = MachineState.product_selected}
              (Route.step {t = MachineState.idle} Route.here refl) refl)
            refl)
          refl)
        refl)
      refl

delivery_needs_payment_example : Visits MachineState.payment_accepted sale_route
delivery_needs_payment_example = delivery_needs_payment sale_route refl refl

confirm_payment_lem_example :
    (paying.accepted_amount.currency ≡ paying.price.currency)
      × (paying.price.minor_units ≤ paying.accepted_amount.minor_units)
      × (confirm_payment 5 paying ≡ ok (confirmed_transaction 5 paying))
      × (paying.accepted_amount.minor_units
          ≡ paying.price.minor_units + (confirmed_transaction 5 paying).change_due.minor_units)
    ⊎ (paying.accepted_amount.currency ≢ paying.price.currency)
      × (confirm_payment 5 paying ≡ err value_error)
    ⊎ (paying.accepted_amount.currency ≡ paying.price.currency)
      × (paying.accepted_amount.minor_units < paying.price.minor_units)
      × (confirm_payment 5 paying ≡ err invariant_violation)
confirm_payment_lem_example = confirm_payment_lem 5 paying
