-- ===== src/Devices/Contracts.antt =====
-- devices/contracts.py. A fault code is a text of DeviceFaultCode or SimulatorFaultCode, which
-- share three texts, or one of the driver's own. Messages, details and times are left out.
use flower_vending_system.Prelude.{
  ℕ, Bool, true, false, ◌||◌, Option, none, some, List, [], ◌∷◌, ◌==◌, if◌then◌else◌,
}
use flower_vending_system.Prelude.Int.{ℤ, pos, negsuc, leb_ℤ}
use flower_vending_system.Prelude.Result.{Result, ok, err, value_error, raise_when}
use flower_vending_system.App.World.{ValidatorEventType}

pub data OperationalState : Type 0 where
  unknown initializing ready disabled degraded fault : OperationalState
  recovery_pending out_of_service : OperationalState

pub data FaultCode : Type 0 where
  command_timeout command_retry_exhausted transient_command_failure : FaultCode
  communication_error protocol_error device_unavailable : FaultCode
  hardware_confirmation_required ambiguous_physical_result physical_state_mismatch : FaultCode
  reconciliation_required unsupported_operation configuration_error : FaultCode
  validator_unavailable bill_jam bill_rejected payout_unavailable partial_payout : FaultCode
  motor_fault window_fault watchdog_fault : FaultCode
  startup_failed validator_fault : FaultCode

-- A number for each text, by which two of them are compared.
abbrev pub fault_number : FaultCode → ℕ
fault_number FaultCode.command_timeout = 0
fault_number FaultCode.command_retry_exhausted = 1
fault_number FaultCode.transient_command_failure = 2
fault_number FaultCode.communication_error = 3
fault_number FaultCode.protocol_error = 4
fault_number FaultCode.device_unavailable = 5
fault_number FaultCode.hardware_confirmation_required = 6
fault_number FaultCode.ambiguous_physical_result = 7
fault_number FaultCode.physical_state_mismatch = 8
fault_number FaultCode.reconciliation_required = 9
fault_number FaultCode.unsupported_operation = 10
fault_number FaultCode.configuration_error = 11
fault_number FaultCode.validator_unavailable = 12
fault_number FaultCode.bill_jam = 13
fault_number FaultCode.bill_rejected = 14
fault_number FaultCode.payout_unavailable = 15
fault_number FaultCode.partial_payout = 16
fault_number FaultCode.motor_fault = 17
fault_number FaultCode.window_fault = 18
fault_number FaultCode.watchdog_fault = 19
fault_number FaultCode.startup_failed = 20
fault_number FaultCode.validator_fault = 21

abbrev pub same_fault : FaultCode → FaultCode → Bool
same_fault a b = fault_number a == fault_number b

-- `code in codes`
abbrev pub has_fault : FaultCode → List FaultCode → Bool
has_fault c [] = false
has_fault c (x ∷ xs) = same_fault c x || has_fault c xs

pub data ReconciliationStatus : Type 0 where
  not_applicable confirmed mismatch ambiguous : ReconciliationStatus

-- `PhysicalStateReconciliation.manual_review_required`
abbrev pub manual_review_required : ReconciliationStatus → Bool
manual_review_required ReconciliationStatus.ambiguous = true
manual_review_required ReconciliationStatus.mismatch = true
manual_review_required _ = false

pub data PayoutStatus : Type 0 where
  dispensed partial failed ambiguous : PayoutStatus

pub data WindowPosition : Type 0 where
  unknown open_position closed opening closing : WindowPosition

pub record DeviceFault : Type 0 where
  pub code : FaultCode
  pub critical : Bool

pub record DeviceHealth : Type 0 where
  pub state : OperationalState
  pub faults : List DeviceFault

-- The time-out is in milliseconds.
pub record CommandPolicy : Type 0 where
  pub timeout : Option ℕ
  pub retry_count : ℕ
  pub retryable_faults : List FaultCode
  pub non_retryable_faults : List FaultCode
  pub reviews_ambiguous : Bool

-- `DeviceCommandPolicy()`
abbrev pub default_policy : CommandPolicy
default_policy = record {
  timeout = some 1000;
  retry_count = 0;
  retryable_faults =
      FaultCode.command_timeout ∷ FaultCode.transient_command_failure
      ∷ FaultCode.communication_error ∷ [];
  non_retryable_faults =
      FaultCode.ambiguous_physical_result ∷ FaultCode.physical_state_mismatch
      ∷ FaultCode.reconciliation_required ∷ FaultCode.unsupported_operation
      ∷ FaultCode.configuration_error ∷ [];
  reviews_ambiguous = true;
}

-- `timeout_s is not None and timeout_s <= 0`
abbrev not_positive : Option ℤ → Bool
not_positive none = false
not_positive (some t) = leb_ℤ t (pos 0)

abbrev natural_timeout : Option ℤ → Option ℕ
natural_timeout (some (pos n)) = some n
natural_timeout _ = none

abbrev checked_retries : ℤ → Option ℕ → CommandPolicy → Result CommandPolicy
checked_retries (negsuc _) t p = err value_error
checked_retries (pos n) t p = ok (record p { timeout = t; retry_count = n })

-- `__post_init__`: the other fields are those of `p`.
unfoldable pub make_policy : Option ℤ → ℤ → CommandPolicy → Result CommandPolicy
make_policy timeout retries p =
    raise_when (not_positive timeout) value_error
      (checked_retries retries (natural_timeout timeout) p)

unfoldable pub is_retryable : CommandPolicy → FaultCode → Bool
is_retryable p code =
    if has_fault code p.non_retryable_faults then false else has_fault code p.retryable_faults

pub record MoneyValue : Type 0 where
  pub minor_units : ℕ
  pub currency : ℕ

-- `MoneyValue(minor_units, currency)`; the blank currency is 0.
abbrev pub make_money_value : ℤ → ℕ → Result MoneyValue
make_money_value (negsuc _) c = err value_error
make_money_value (pos n) c =
    raise_when (c == 0) value_error (ok (record { minor_units = n; currency = c }))

-- `BillValidatorEvent`: its type and its bill.
pub record ValidatorEvent : Type 0 where
  pub event_type : ValidatorEventType
  pub bill_value : Option MoneyValue
