-- ===== src/Devices/Errors.antt =====
-- devices/exceptions.py: what a device command may raise.
use flower_vending_system.Prelude.{Bool, true, false, Option, some}
use flower_vending_system.Devices.Contracts.{FaultCode}

-- `DeviceCommandError` and its subclasses, by the fields that are read.
pub record CommandError : Type 0 where
  pub fault_code : FaultCode
  pub retryable : Option Bool
  pub ambiguous : Bool
  pub manual_review_required : Bool

-- `DeviceCommandError(message, fault_code=..., retryable=...)`
abbrev pub command_error : FaultCode → Option Bool → CommandError
command_error code retryable = record {
  fault_code = code;
  retryable = retryable;
  ambiguous = false;
  manual_review_required = false;
}

-- `DeviceCommandTimeoutError`
abbrev pub timeout_error : CommandError
timeout_error = command_error FaultCode.command_timeout (some true)

-- `DeviceCommandRetryExhaustedError`
abbrev pub retry_exhausted_error : CommandError
retry_exhausted_error = command_error FaultCode.command_retry_exhausted (some false)

-- `AmbiguousDeviceResultError`
abbrev pub ambiguous_error : CommandError
ambiguous_error = record {
  fault_code = FaultCode.ambiguous_physical_result;
  retryable = some false;
  ambiguous = true;
  manual_review_required = true;
}

-- The other subclasses of `DeviceAdapterError` that the modelled code raises.
pub data AdapterError : Type 0 where
  adapter_error not_started unsupported hardware_confirmation : AdapterError
  transport_io configuration : AdapterError

-- What an operation raises: `timed_out` is asyncio's own time-out, `other_error` any exception that
-- is none of the rest, such as the ValueError of a constructor.
pub data Raised : Type 0 where
  command : CommandError → Raised
  timed_out : Raised
  adapter : AdapterError → Raised
  other_error : Raised

-- How a call ends.
pub data Outcome (V : Type 0) : Type 0 where
  returned : V → Outcome V
  raised : Raised → Outcome V
