-- ===== src/Simulators/Motor.antt =====
-- simulators/devices/mock_motor_controller.py. A missing correlation id is none; the key
-- `vend:{slot_id}` that stands in for it is a number that the caller gives.
pub mod Vends
use flower_vending_system.Prelude.{ℕ, Option, none, some, List, [], ◌∷◌, ◌++◌}
use flower_vending_system.Devices.Contracts.{FaultCode, OperationalState, CommandPolicy}
use flower_vending_system.Devices.Runner.{Operation, Command, plain_command, heartbeat, run_command}
use flower_vending_system.Devices.Step.{◌>>=◌, ◌>>◌, update}
use flower_vending_system.Simulators.Base.{
  Mock, with_body, consume_policy_fault, consume_own_fault, policy_codes,
}

-- `vend_history`
abbrev pub MotorParts : Type 0
MotorParts = Mock (List ℕ)

abbrev pub MotorOperation : Type 0
MotorOperation = Operation MotorParts (Unit {0})

-- The numbers of the commands' names: home 0, vend_slot 1.
abbrev pub home_command : Option ℕ → Command (Unit {0})
home_command cid = plain_command 0 cid

abbrev pub vend_command : ℕ → Option ℕ → Command (Unit {0})
vend_command fallback none = plain_command 1 (some fallback)
vend_command fallback (some cid) = plain_command 1 (some cid)

unfoldable pub home_once : CommandPolicy → MotorOperation
unfolding ◌>>=◌ update consume_policy_fault
home_once p = do
  consume_policy_fault p.timeout policy_codes
  update (heartbeat OperationalState.ready)

unfoldable pub home : CommandPolicy → Option ℕ → MotorOperation
unfolding run_command home_once
home p cid = run_command p (home_command cid) (home_once p)

-- The work of the motor, behind the faults.
unfoldable pub record_vend : ℕ → MotorOperation
unfolding ◌>>=◌ update
record_vend slot = do
  update (λ d. with_body (d.parts.body ++ (slot ∷ [])) d)
  update (heartbeat OperationalState.ready)

unfoldable pub vend_once : CommandPolicy → ℕ → MotorOperation
unfolding ◌>>=◌ record_vend consume_policy_fault consume_own_fault
vend_once p slot = do
  consume_policy_fault p.timeout policy_codes
  consume_own_fault FaultCode.motor_fault
  record_vend slot

unfoldable pub vend_slot : CommandPolicy → (fallback slot : ℕ) → Option ℕ → MotorOperation
unfolding run_command vend_once
vend_slot p fallback slot cid = run_command p (vend_command fallback cid) (vend_once p slot)

unfoldable pub stop_motion : MotorOperation
unfolding update
stop_motion = update (heartbeat OperationalState.degraded)
