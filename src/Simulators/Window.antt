-- ===== src/Simulators/Window.antt =====
-- simulators/devices/mock_window_controller.py. The window is never locked.
pub mod Moves
use flower_vending_system.Prelude.{ℕ, Option}
use flower_vending_system.Devices.Contracts.{
  FaultCode, OperationalState, CommandPolicy, WindowPosition,
}
use flower_vending_system.Devices.Runner.{Operation, Command, plain_command, heartbeat, run_command}
use flower_vending_system.Devices.Step.{◌>>=◌, ◌>>◌, update}
use flower_vending_system.Simulators.Base.{
  Mock, MockDevice, new_mock, with_body, consume_policy_fault, consume_own_fault, policy_codes,
}

abbrev pub WindowParts : Type 0
WindowParts = Mock WindowPosition

abbrev pub WindowOperation : Type 0
WindowOperation = Operation WindowParts (Unit {0})

abbrev pub new_window : MockDevice WindowPosition (Unit {0})
new_window = new_mock WindowPosition.closed

unfoldable pub reach : WindowPosition → WindowOperation
unfolding ◌>>=◌ update
reach position = do update (with_body position); update (heartbeat OperationalState.ready)

-- The body of `open_window` and `close_window`, which differ in the position that they end in.
unfoldable pub move_window_once : CommandPolicy → WindowPosition → WindowOperation
unfolding ◌>>=◌ reach consume_policy_fault consume_own_fault
move_window_once p position = do
  consume_policy_fault p.timeout policy_codes
  consume_own_fault FaultCode.window_fault
  reach position

-- The numbers of the commands' names: open_window 0, close_window 1.
unfoldable pub open_window : CommandPolicy → Option ℕ → WindowOperation
unfolding run_command move_window_once
open_window p cid =
    run_command p (plain_command 0 cid) (move_window_once p WindowPosition.open_position)

unfoldable pub close_window : CommandPolicy → Option ℕ → WindowOperation
unfolding run_command move_window_once
close_window p cid = run_command p (plain_command 1 cid) (move_window_once p WindowPosition.closed)
