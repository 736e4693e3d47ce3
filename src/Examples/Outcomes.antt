-- ===== src/Examples/Outcomes.antt =====
-- More of the handlers' theorems at work: src/flower_vending/app/orchestrators and
-- src/flower_vending/payments/change_manager.py.
use flower_vending_system.Prelude.{ℕ, true, [], ◌∷◌, ◌≡◌, refl, arith}
use flower_vending_system.Prelude.Int.{pos, ◌-ℤ◌}
use flower_vending_system.Prelude.Result.{ok, manual_intervention_required}
use flower_vending_system.Domain.Reserve.{Plan, plan_total}
use flower_vending_system.Domain.Transaction.{
  Transaction, new_transaction, cancel, confirmed_transaction,
}
use flower_vending_system.Domain.Status.{MachineState}
use flower_vending_system.Fsm.Transitions.{is_allowed}
use flower_vending_system.Money.Counts.{count_of}
use flower_vending_system.Money.Inventory.{available_counts}
use flower_vending_system.Money.Reservation.{accounted, IsCovered}
use flower_vending_system.Money.Planning.{
  found, plan_change, plan_from, backtrack, try_counts, add_count, denominations, insert_desc,
}
use flower_vending_system.App.Services.{make_transaction, get_product, get_slot}
use flower_vending_system.App.Change.{dispense_refund}
use flower_vending_system.App.Vending.{start_purchase, handle_confirm_pickup}
use flower_vending_system.App.Recovery.{assess, assess_status, assess_payment, recover_transaction}
use flower_vending_system.App.Wp.{Returns, Raises}
use flower_vending_system.App.Outcome.{IsStopped}
use flower_vending_system.App.Outcome.Refund.{dispense_refund-pays}
use flower_vending_system.App.Payment.Settle.{settle_change}
use flower_vending_system.App.Outcome.Payout.{IsPaidOut, settle_change-pays}
use flower_vending_system.App.Outcome.Recover.{
  IsReleased, recover_transaction-operator, recover_transaction-cancels,
}
use flower_vending_system.App.Outcome.Pickup.{IsSold, picked_up, handle_confirm_pickup-completes}
use flower_vending_system.App.Outcome.Purchase.{IsUnchanged, start_purchase-refused}
use flower_vending_system.App.Outcome.Opening.{IsOpened, IsReady, start_purchase-opens}
use flower_vending_system.Scenarios.{
  change_money, shop, shop_with, paying, paid, waiting, good_devices,
}

abbrev refund_plan : Plan
refund_plan = (100, 1) ∷ (500, 1) ∷ []

refund_planned : plan_change 600 change_money ≡ found refund_plan
unfolding plan_change plan_from backtrack try_counts add_count denominations insert_desc
    available_counts
refund_planned = refl

shop-IsCovered : IsCovered change_money
shop-IsCovered d = ground arith

dispense_refund-pays_example :
    Returns
      (dispense_refund good_devices 41 600)
      (λ u w'.
        (plan_total refund_plan ≡ 600)
        × ((d : ℕ) → accounted d w'.money ≡ accounted d shop.money -ℤ pos (count_of d refund_plan))
        × IsCovered w'.money)
      shop
dispense_refund-pays_example =
    dispense_refund-pays good_devices 41 600 shop refl (refl, (refl, (refl, tt))) shop-IsCovered
      refund_planned refl

recover_transaction-operator_example :
    Raises
      (recover_transaction good_devices 41)
      (λ e w'.
        (e ≡ manual_intervention_required) × IsStopped 41 paid MachineState.recovery_pending w')
      (shop_with paid MachineState.payment_accepted)
unfolding assess assess_status assess_payment
recover_transaction-operator_example =
    recover_transaction-operator good_devices 41 (shop_with paid MachineState.payment_accepted) refl
      refl

recover_transaction-cancels_example :
    Returns
      (recover_transaction good_devices 41)
      (λ p w'.
        (p ≡ assess paying)
        × IsReleased 41
            (cancel 1000 paying)
            (shop_with paying MachineState.accepting_cash).active_id
            w')
      (shop_with paying MachineState.accepting_cash)
unfolding assess assess_status assess_payment
recover_transaction-cancels_example =
    recover_transaction-cancels good_devices 41 (shop_with paying MachineState.accepting_cash) refl
      refl refl

handle_confirm_pickup-completes_example :
    Returns
      (handle_confirm_pickup good_devices 41)
      (λ tid w'.
        (tid ≡ 41)
        × IsSold 41
            (picked_up good_devices 0 waiting)
            (shop_with waiting MachineState.waiting_for_customer_pickup).active_id
            w')
      (shop_with waiting MachineState.waiting_for_customer_pickup)
unfolding is_allowed
handle_confirm_pickup-completes_example =
    handle_confirm_pickup-completes good_devices waiting
      (shop_with waiting MachineState.waiting_for_customer_pickup) refl refl refl

start_purchase-refused_example :
    Raises
      (start_purchase good_devices 5 7 3 (pos 350) 1)
      (λ e w'. IsUnchanged (shop_with paying MachineState.accepting_cash) w')
      (shop_with paying MachineState.accepting_cash)
start_purchase-refused_example =
    start_purchase-refused good_devices 5 7 3 (pos 350) 1
      (shop_with paying MachineState.accepting_cash) refl

abbrev opened : Transaction
opened = new_transaction 41 5 7 3 (record { minor_units = 350; currency = 1 }) 1001

shop-IsReady :
    IsReady good_devices 7 3
      (record { product_id = 7; enabled = true })
      (record {
        slot_id = 3;
        product_id = 7;
        capacity = pos 5;
        quantity = pos 2;
        is_enabled = true;
      })
      (record { has_product = true; confidence = 900 })
      shop
unfolding get_product get_slot
shop-IsReady = record {
  allowed = refl;
  product = refl;
  stocked = refl;
  matching = refl;
  sellable = refl;
  sensor = refl;
  seen = refl;
  certain = refl;
  free = refl;
  idle = refl;
}

made : make_transaction 41 5 7 3 (pos 350) 1 1001 ≡ ok opened
unfolding make_transaction
made = refl

start_purchase-opens_example :
    Returns
      (start_purchase good_devices 5 7 3 (pos 350) 1)
      (λ tid w'. (tid ≡ opened.transaction_id) × IsOpened 41 opened w')
      shop
start_purchase-opens_example =
    start_purchase-opens good_devices 5 7 3 (pos 350) 1 shop shop-IsReady made

abbrev due : Transaction
due = confirmed_transaction 1002 paying

abbrev due_plan : Plan
due_plan = (50, 1) ∷ (100, 2) ∷ []

due_planned : plan_change 250 change_money ≡ found due_plan
unfolding plan_change plan_from backtrack try_counts add_count denominations insert_desc
    available_counts
due_planned = refl

settle_change-pays_example :
    Returns
      (settle_change good_devices 41 250)
      (λ u w'. IsPaidOut 41 250 due_plan change_money w')
      (shop_with due MachineState.payment_accepted)
unfolding is_allowed
settle_change-pays_example =
    settle_change-pays good_devices 41 (shop_with due MachineState.payment_accepted) refl refl
      (refl, (refl, (refl, tt))) shop-IsCovered due_planned refl refl
