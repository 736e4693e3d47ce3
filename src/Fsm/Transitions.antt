-- ===== src/Fsm/Transitions.antt =====
-- app/fsm/transitions.py: the table of allowed transitions, one clause for each pair.
use flower_vending_system.Prelude.{ℕ, Bool, true, false, ◌==◌}
use flower_vending_system.Domain.Status.{MachineState}
use flower_vending_system.Domain.Status.MachineState.{
  boot, self_test, idle, product_selected, checking_availability, checking_change,
  waiting_for_payment, accepting_cash, payment_accepted, dispensing_change, dispensing_product,
  opening_delivery_window, waiting_for_customer_pickup, closing_delivery_window, completed,
  cancelled, out_of_service, fault, service_mode, recovery_pending,
}

unfoldable pub is_allowed : MachineState → MachineState → Bool
is_allowed boot self_test = true
is_allowed boot fault = true
is_allowed self_test idle = true
is_allowed self_test recovery_pending = true
is_allowed self_test out_of_service = true
is_allowed self_test fault = true
is_allowed idle product_selected = true
is_allowed idle service_mode = true
is_allowed idle out_of_service = true
is_allowed idle fault = true
is_allowed product_selected checking_availability = true
is_allowed product_selected cancelled = true
is_allowed product_selected fault = true
is_allowed checking_availability checking_change = true
is_allowed checking_availability cancelled = true
is_allowed checking_availability out_of_service = true
is_allowed checking_availability fault = true
is_allowed checking_change waiting_for_payment = true
is_allowed checking_change cancelled = true
is_allowed checking_change out_of_service = true
is_allowed waiting_for_payment accepting_cash = true
is_allowed waiting_for_payment cancelled = true
is_allowed waiting_for_payment fault = true
is_allowed waiting_for_payment out_of_service = true
is_allowed accepting_cash payment_accepted = true
is_allowed accepting_cash cancelled = true
is_allowed accepting_cash fault = true
is_allowed accepting_cash out_of_service = true
is_allowed accepting_cash recovery_pending = true
is_allowed payment_accepted dispensing_change = true
is_allowed payment_accepted dispensing_product = true
is_allowed payment_accepted fault = true
is_allowed payment_accepted recovery_pending = true
is_allowed dispensing_change dispensing_product = true
is_allowed dispensing_change fault = true
is_allowed dispensing_change recovery_pending = true
is_allowed dispensing_product opening_delivery_window = true
is_allowed dispensing_product fault = true
is_allowed dispensing_product recovery_pending = true
is_allowed opening_delivery_window waiting_for_customer_pickup = true
is_allowed opening_delivery_window fault = true
is_allowed opening_delivery_window recovery_pending = true
is_allowed waiting_for_customer_pickup closing_delivery_window = true
is_allowed waiting_for_customer_pickup fault = true
is_allowed waiting_for_customer_pickup recovery_pending = true
is_allowed closing_delivery_window completed = true
is_allowed closing_delivery_window fault = true
is_allowed closing_delivery_window recovery_pending = true
is_allowed completed idle = true
is_allowed completed out_of_service = true
is_allowed cancelled idle = true
is_allowed cancelled out_of_service = true
is_allowed out_of_service service_mode = true
is_allowed out_of_service idle = true
is_allowed out_of_service recovery_pending = true
is_allowed fault out_of_service = true
is_allowed fault service_mode = true
is_allowed fault recovery_pending = true
is_allowed service_mode out_of_service = true
is_allowed service_mode idle = true
is_allowed service_mode fault = true
is_allowed service_mode recovery_pending = true
is_allowed recovery_pending idle = true
is_allowed recovery_pending out_of_service = true
is_allowed recovery_pending fault = true
is_allowed recovery_pending service_mode = true
is_allowed _ _ = false

-- The position of a state in the enumeration, by which states are compared.
abbrev pub state_code : MachineState → ℕ
state_code boot = 0
state_code self_test = 1
state_code idle = 2
state_code product_selected = 3
state_code checking_availability = 4
state_code checking_change = 5
state_code waiting_for_payment = 6
state_code accepting_cash = 7
state_code payment_accepted = 8
state_code dispensing_change = 9
state_code dispensing_product = 10
state_code opening_delivery_window = 11
state_code waiting_for_customer_pickup = 12
state_code closing_delivery_window = 13
state_code completed = 14
state_code cancelled = 15
state_code out_of_service = 16
state_code fault = 17
state_code service_mode = 18
state_code recovery_pending = 19

unfoldable pub same_state : MachineState → MachineState → Bool
same_state a b = state_code a == state_code b
