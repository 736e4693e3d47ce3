-- ===== src/Examples/Cancel.antt =====
-- A purchase that is cancelled twice: src/flower_vending/app/orchestrators/payment_coordinator.py.
use flower_vending_system.Prelude.{
  ℕ, suc, Bool, true, false, not, ◌&&◌, if◌then◌else◌, List, [], ◌∷◌, ◌≡◌, refl,
}
use flower_vending_system.Domain.Status.{MachineState}
use flower_vending_system.App.Vending
use flower_vending_system.App.World.{
  call, call_payout, modify_transaction, Effect, called, DeviceCall, JournalEntry, ActionName,
}
use flower_vending_system.App.Services.{sync_state, move_to, clear_active}
use flower_vending_system.App.Journal.{
  same_key, has_key, append_entry, record_intent, record_outcome, is_outcome,
}
use flower_vending_system.App.Bus.{publish_to}
use flower_vending_system.App.Change.{reserve_money, find_plan, release_attached, dispense_refund}
use flower_vending_system.App.Payment.Cancel.{needs_refund, cancel_purchase}
use flower_vending_system.App.Machine.{run, Command}
use flower_vending_system.Fsm.Engine.{can_transition, transition}
use flower_vending_system.Money.Inventory.{
  available_counts, can_reserve, add_counts, drop_counts, pay_counts, reserve, consume,
}
use flower_vending_system.Money.Planning.{
  add_count, try_counts, backtrack, insert_desc, denominations, plan_from, plan_change,
}
use flower_vending_system.App.Pickup.{handle_pickup_finished}
use flower_vending_system.Scenarios.{paying, shop_with, settings}

-- The payouts that were asked for.
abbrev payouts : List Effect → ℕ
payouts [] = 0
payouts (called (DeviceCall.dispense p) ∷ tr) = suc (payouts tr)
payouts (e ∷ tr) = payouts tr

abbrev is_refund : ActionName → Bool
is_refund ActionName.refund_dispense_requested = true
is_refund _ = false

-- The rows of the journal that announce a refund.
abbrev refund_intents : List JournalEntry → ℕ
refund_intents [] = 0
refund_intents (e ∷ es) =
    if is_refund e.action && not (is_outcome e) then suc (refund_intents es) else refund_intents es

abbrev cancelled_twice : List Command
cancelled_twice = Command.cancel_purchase 41 ∷ Command.cancel_purchase 41 ∷ []

-- Two refunds leave the machine, and the journal announces one: the second intent has a key that
-- is there.
refunded_twice :
    let w = run settings cancelled_twice (shop_with paying MachineState.accepting_cash) in
    (payouts w.trace ≡ 2) × (refund_intents w.journal ≡ 1)
unfolding call call_payout modify_transaction sync_state move_to clear_active same_key has_key
    append_entry record_intent record_outcome publish_to reserve_money find_plan release_attached
    dispense_refund needs_refund cancel_purchase run can_transition transition available_counts
    can_reserve add_counts drop_counts pay_counts reserve consume add_count try_counts backtrack
    insert_desc denominations plan_from plan_change handle_pickup_finished Vending.cancel_purchase
refunded_twice = (refl, refl)
