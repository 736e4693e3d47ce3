-- ===== src/Fsm/Graph.antt =====
-- The table of app/fsm/transitions.py as a graph: what every route through it must pass.
use flower_vending_system.Prelude.{Bool, true, false, ◌≡◌, ◌⊎◌, inl, inr, arith, Bool-cases}
use flower_vending_system.Domain.Status.{MachineState}
use flower_vending_system.Domain.Status.MachineState.{
  payment_accepted, dispensing_change, dispensing_product, opening_delivery_window,
  waiting_for_customer_pickup, closing_delivery_window, completed, cancelled,
}
use flower_vending_system.Fsm.Transitions.{is_allowed}

-- A route: a chain of allowed transitions, with no forced state on it.
pub data Route (s : MachineState) : MachineState → Type 0 where
  here : Route s s
  step : {t u : MachineState} → Route s t → is_allowed t u ≡ true → Route s u

-- The route ends in `x` or has passed it.
pub Visits : MachineState → {s t : MachineState} → Route s t → Type 0
Visits x {s = s} here = s ≡ x
Visits x (step {u = u} r e) = (u ≡ x) ⊎ Visits x r

-- The states in which a sale's money is in the machine and its product is under way.
abbrev pub is_delivering : MachineState → Bool
is_delivering payment_accepted = true
is_delivering dispensing_change = true
is_delivering dispensing_product = true
is_delivering opening_delivery_window = true
is_delivering waiting_for_customer_pickup = true
is_delivering closing_delivery_window = true
is_delivering completed = true
is_delivering _ = false

delivering_entry :
    (t u : MachineState)
    → is_allowed t u ≡ true
    → is_delivering t ≡ false
    → is_delivering u ≡ true
    → u ≡ payment_accepted
unfolding is_allowed
delivering_entry t u e h k = ground arith

-- From a state outside a delivery, no route reaches one of the delivery states without passing
-- PAYMENT_ACCEPTED.
pub delivery_needs_payment :
    {s t : MachineState} (r : Route s t)
    → is_delivering s ≡ false
    → is_delivering t ≡ true
    → Visits payment_accepted r
unfolding Visits
delivery_needs_payment here h k = cc
delivery_needs_payment (step {t = t} {u = u} r e) h k = elim (Bool-cases (is_delivering t)) [
  | inl d ↦ inr (delivery_needs_payment r h d)
  | inr d ↦ inl (delivering_entry t u e d k)
]

-- After the payment is accepted, the sale can no longer be cancelled by an allowed transition.
pub cancelled_entry : (s : MachineState) → is_allowed s cancelled ≡ true → is_delivering s ≡ false
unfolding is_allowed
cancelled_entry s e = ground arith
