-- ===== src/Simulators/Base.antt =====
-- simulators/devices/base.py: what the simulated devices share. A time-out of the policy overtakes
-- a command that sleeps for that long: `asyncio.wait_for` starts its timer before the operation.
pub mod Commands
pub mod Keeps
use flower_vending_system.Prelude.{
  ℕ, Bool, true, false, ◌&&◌, Option, none, some, List, [], ◌∷◌, ltb, leb,
}
use flower_vending_system.Devices.Contracts.{FaultCode, OperationalState}
use flower_vending_system.Devices.Errors.{
  command_error, timeout_error, ambiguous_error, command, timed_out, adapter, adapter_error,
  Outcome, returned, raised,
}
use flower_vending_system.Devices.Runner.{Device, activate_fault}
use flower_vending_system.Devices.Step.{Step, give, ◌>>=◌}
use flower_vending_system.Simulators.Faults.{
  FaultPlan, Injector, add_plan, clear_plans, consume_fault,
}

-- The parts of a simulated device: the injector and what its class adds.
pub record Mock (B : Type 0) : Type 0 where
  pub injector : Injector
  pub body : B

abbrev pub MockDevice : Type 0 → Type 0 → Type 0
MockDevice B R = Device (Mock B) R

-- `asyncio.sleep(delay_s)` under `wait_for`
abbrev pub overtaken : Option ℕ → ℕ → Bool
overtaken none delay = false
overtaken (some t) delay = ltb 0 delay && leb t delay

-- The fault of a plan whose code is one of the policy's.
abbrev pub policy_fault : FaultPlan → FaultCode → Outcome (Option FaultPlan)
policy_fault p FaultCode.command_timeout = raised (command timeout_error)
policy_fault p FaultCode.transient_command_failure =
    raised (command (command_error FaultCode.transient_command_failure (some true)))
policy_fault p FaultCode.ambiguous_physical_result = raised (command ambiguous_error)
policy_fault p _ = returned (some p)

abbrev pub strike : Bool → FaultPlan → Outcome (Option FaultPlan)
strike true p = raised timed_out
strike false p = policy_fault p p.code

module _ {B R : Type 0} where
  abbrev pub with_injector : Injector → MockDevice B R → MockDevice B R
  with_injector i d = record d { parts = record { injector = i; body = d.parts.body } }

  abbrev pub with_body : B → MockDevice B R → MockDevice B R
  with_body b d = record d { parts = record { injector = d.parts.injector; body = b } }

  -- `__init__`
  abbrev pub new_mock : B → MockDevice B R
  new_mock b = record {
    started = false;
    health = record { state = OperationalState.unknown; faults = [] };
    cache = [];
    parts = record { injector = []; body = b };
  }

  -- `start` and `stop`
  unfoldable pub start_mock : MockDevice B R → MockDevice B R
  start_mock d = record d {
    started = true;
    health = record { state = OperationalState.ready; faults = [] };
  }

  unfoldable pub stop_mock : MockDevice B R → MockDevice B R
  stop_mock d = record d {
    started = false;
    health = record { state = OperationalState.disabled; faults = d.health.faults };
  }

  unfoldable pub inject_fault : FaultPlan → MockDevice B R → MockDevice B R
  inject_fault p d = with_injector (add_plan p d.parts.injector) d

  unfoldable pub clear_faults : MockDevice B R → MockDevice B R
  clear_faults d = record (with_injector (clear_plans none d.parts.injector) d) {
    health = record { state = OperationalState.ready; faults = [] };
  }

  -- `self.injector.consume(code)`
  unfoldable pub consume : FaultCode → Step (Mock B) R (Option FaultPlan)
  consume code d =
      let (p, i) = consume_fault code d.parts.injector in (returned p, with_injector i d)

  abbrev pub struck_or :
      Option ℕ
      → Step (Mock B) R (Option FaultPlan)
      → Option FaultPlan
      → Step (Mock B) R (Option FaultPlan)
  struck_or timeout next none d = next d
  struck_or timeout next (some p) d = (strike (overtaken timeout p.delay) p, d)

  -- `_consume_policy_fault`
  unfoldable pub consume_policy_fault :
      Option ℕ → List FaultCode → Step (Mock B) R (Option FaultPlan)
  unfolding consume give
  consume_policy_fault timeout [] = give none
  consume_policy_fault timeout (code ∷ codes) =
      consume code >>= struck_or timeout (consume_policy_fault timeout codes)

  abbrev pub break_down : Option FaultPlan → Step (Mock B) R (Unit {0})
  break_down none d = (returned tt, d)
  break_down (some p) d = (raised (adapter adapter_error), activate_fault p.code true d)

  -- The fault of the device itself: `_activate_fault` and DeviceAdapterError, if the injector has
  -- a plan.
  unfoldable pub consume_own_fault : FaultCode → Step (Mock B) R (Unit {0})
  unfolding consume
  consume_own_fault code = consume code >>= break_down

-- The three faults that most commands look for first.
abbrev pub policy_codes : List FaultCode
policy_codes =
    FaultCode.command_timeout ∷ FaultCode.transient_command_failure
    ∷ FaultCode.ambiguous_physical_result ∷ []
