-- ===== src/Simulators/Watchdog.antt =====
-- simulators/devices/mock_watchdog_adapter.py. Times are in milliseconds; the key `arm:{timeout}` of
-- the command `arm` is the time itself, and the key of `disarm` is 0.
use flower_vending_system.Prelude.{ℕ, Option, none, some, List, [], ◌∷◌}
use flower_vending_system.Devices.Contracts.{FaultCode, OperationalState, CommandPolicy}
use flower_vending_system.Devices.Runner.{Operation, Command, plain_command, heartbeat, run_command}
use flower_vending_system.Devices.Step.{◌>>=◌, ◌>>◌, update}
use flower_vending_system.Simulators.Base.{Mock, with_body, consume_policy_fault, consume_own_fault}

-- `_armed_timeout_s`
abbrev pub WatchdogParts : Type 0
WatchdogParts = Mock (Option ℕ)

abbrev pub WatchdogOperation : Type 0
WatchdogOperation = Operation WatchdogParts (Unit {0})

abbrev watchdog_codes : List FaultCode
watchdog_codes = FaultCode.command_timeout ∷ FaultCode.transient_command_failure ∷ []

unfoldable pub arm_once : CommandPolicy → ℕ → WatchdogOperation
unfolding ◌>>=◌ update consume_policy_fault consume_own_fault
arm_once p time = do
  consume_policy_fault p.timeout watchdog_codes
  consume_own_fault FaultCode.watchdog_fault
  update (with_body (some time))
  update (heartbeat OperationalState.ready)

-- The numbers of the commands' names: arm 0, kick 1, disarm 2.
unfoldable pub arm : CommandPolicy → ℕ → WatchdogOperation
unfolding run_command arm_once
arm p time = run_command p (plain_command 0 (some time)) (arm_once p time)

unfoldable pub kick_once : CommandPolicy → WatchdogOperation
unfolding ◌>>=◌ update consume_policy_fault
kick_once p = do
  consume_policy_fault p.timeout watchdog_codes
  update (heartbeat OperationalState.ready)

unfoldable pub kick : CommandPolicy → WatchdogOperation
unfolding run_command kick_once
kick p = run_command p (plain_command 1 none) (kick_once p)

unfoldable pub disarm_once : WatchdogOperation
unfolding ◌>>=◌ update
disarm_once = do update (with_body none); update (heartbeat OperationalState.disabled)

abbrev disarm_command : Command (Unit {0})
disarm_command = record (plain_command {R = Unit {0}} 2 (some 0)) {
  success_state = OperationalState.disabled;
}

unfoldable pub disarm : CommandPolicy → WatchdogOperation
unfolding run_command disarm_once
disarm p = run_command p disarm_command disarm_once
