-- ===== src/Domain/Status.antt =====
-- domain/entities/machine_status.py, app/services/machine_status_service.py and
-- app/fsm/states.py. The set of blockers is a list without repetition.
use flower_vending_system.Prelude.{
  ℕ, Bool, true, false, not, ◌&&◌, ◌||◌, Option, List, [], ◌∷◌, ◌==◌, if◌then◌else◌,
}

pub data MachineState : Type 0 where
  boot self_test idle product_selected checking_availability checking_change : MachineState
  waiting_for_payment accepting_cash payment_accepted dispensing_change : MachineState
  dispensing_product opening_delivery_window waiting_for_customer_pickup : MachineState
  closing_delivery_window completed cancelled out_of_service fault : MachineState
  service_mode recovery_pending : MachineState

-- `UNSAFE_MACHINE_STATES`
abbrev pub is_unsafe : MachineState → Bool
is_unsafe MachineState.boot = true
is_unsafe MachineState.self_test = true
is_unsafe MachineState.out_of_service = true
is_unsafe MachineState.fault = true
is_unsafe MachineState.service_mode = true
is_unsafe MachineState.recovery_pending = true
is_unsafe _ = false

-- The reasons that the code passes to `block_sales`.
pub data Blocker : Type 0 where
  validator_fault delivery_window_fault recovery_pending : Blocker
  device_fault service_door_open critical_temperature : Blocker

abbrev pub blocker_code : Blocker → ℕ
blocker_code Blocker.validator_fault = 0
blocker_code Blocker.delivery_window_fault = 1
blocker_code Blocker.recovery_pending = 2
blocker_code Blocker.device_fault = 3
blocker_code Blocker.service_door_open = 4
blocker_code Blocker.critical_temperature = 5

abbrev pub has_blocker : Blocker → List Blocker → Bool
has_blocker b [] = false
has_blocker b (x ∷ xs) = blocker_code b == blocker_code x || has_blocker b xs

-- `set.add` and `set.discard`
abbrev pub add_blocker : Blocker → List Blocker → List Blocker
add_blocker b xs = if has_blocker b xs then xs else b ∷ xs

unfoldable pub discard_blocker : Blocker → List Blocker → List Blocker
discard_blocker b [] = []
discard_blocker b (x ∷ xs) =
    if blocker_code b == blocker_code x then discard_blocker b xs else x ∷ discard_blocker b xs

abbrev pub has_any : List Blocker → Bool
has_any [] = false
has_any (_ ∷ _) = true

pub record MachineStatus : Type 0 where
  pub machine_state : MachineState
  pub in_service_mode : Bool
  pub exact_change_only : Bool
  pub sale_blockers : List Blocker
  pub active_transaction_id : Option ℕ
  pub allow_cash_sales : Bool
  pub allow_vending : Bool

abbrev pub is_blocked : MachineStatus → Bool
is_blocked s = has_any s.sale_blockers || s.in_service_mode || is_unsafe s.machine_state

abbrev pub refresh_permissions : MachineStatus → MachineStatus
refresh_permissions s = record s {
  allow_cash_sales = not (is_blocked s);
  allow_vending = not (is_blocked s);
}

abbrev pub block : Blocker → MachineStatus → MachineStatus
block b s = refresh_permissions (record s { sale_blockers = add_blocker b s.sale_blockers })

abbrev pub unblock : Blocker → MachineStatus → MachineStatus
unblock b s = refresh_permissions (record s { sale_blockers = discard_blocker b s.sale_blockers })

abbrev pub set_machine_state : MachineState → MachineStatus → MachineStatus
set_machine_state m s = refresh_permissions (record s { machine_state = m })

abbrev pub set_active_transaction : Option ℕ → MachineStatus → MachineStatus
set_active_transaction t s = refresh_permissions (record s { active_transaction_id = t })

abbrev pub set_service_mode : Bool → MachineStatus → MachineStatus
set_service_mode b s = refresh_permissions (record s { in_service_mode = b })

abbrev pub set_exact_change_only : Bool → MachineStatus → MachineStatus
set_exact_change_only b s = refresh_permissions (record s { exact_change_only = b })

abbrev pub sales_allowed : MachineStatus → Bool
sales_allowed s = s.allow_cash_sales && not (has_any s.sale_blockers)
