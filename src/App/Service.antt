-- ===== src/App/Service.antt =====
-- app/orchestrators/service_mode_coordinator.py and health_monitor.py. Temperatures are integers
-- in the sensor's unit; the snapshot that `poll_once` stores for display is left out.
use flower_vending_system.Prelude.{Bool, true, false, none, List, [], ◌∷◌, if◌then◌else◌}
use flower_vending_system.Prelude.Int.{ℤ, leb_ℤ}
use flower_vending_system.Prelude.Result.{device_error}
use flower_vending_system.Domain.Status.{MachineState, Blocker, set_service_mode}
use flower_vending_system.App.World.{Action, Event, pure, raise, gets, ◌>>◌, publish}
use flower_vending_system.App.Services.{
  modify_status, sync_state, block_sales, unblock_sales, move_or_force,
}

unfoldable pub enter_service_mode : Action MachineState
enter_service_mode = do
  move_or_force MachineState.service_mode
  modify_status (set_service_mode true)
  sync_state
  publish Event.service_mode_entered
  gets (λ w. w.fsm.state)

unfoldable pub exit_service_mode : Action MachineState
exit_service_mode = do
  modify_status (set_service_mode false)
  move_or_force MachineState.idle
  sync_state
  publish Event.service_mode_exited
  gets (λ w. w.fsm.state)

-- `DeviceOperationalState`
pub data DeviceState : Type 0 where
  unknown initializing ready disabled degraded fault recovery_pending out_of_service : DeviceState

abbrev pub is_faulty : DeviceState → Bool
is_faulty DeviceState.fault = true
is_faulty DeviceState.recovery_pending = true
is_faulty DeviceState.out_of_service = true
is_faulty _ = false

unfoldable pub any_faulty : List DeviceState → Bool
any_faulty [] = false
any_faulty (d ∷ ds) = if is_faulty d then true else any_faulty ds

-- A sensor that the machine may lack, and whose reading may raise.
pub data Reading (A : Type 0) : Type 0 where
  absent fails : Reading A
  reads : A → Reading A

-- What a round reads: the devices' states, the service door and the temperature.
pub record Readings : Type 0 where
  pub devices : Reading (List DeviceState)
  pub door_open : Reading Bool
  pub celsius : Reading ℤ

-- `block_sales` with an event, or `unblock_sales`.
unfoldable pub block_while : Bool → Blocker → Event → Action (Unit {0})
block_while true b e = block_sales b >> publish e
block_while false b e = unblock_sales b

-- The poll's answer to a reading.
unfoldable pub on_reading : {A : Type 0} → (A → Action (Unit {0})) → Reading A → Action (Unit {0})
on_reading f absent = pure tt
on_reading f fails = raise device_error
on_reading f (reads a) = f a

unfoldable pub check_devices : List DeviceState → Action (Unit {0})
check_devices ds = block_while (any_faulty ds) Blocker.device_fault (Event.machine_faulted none)

unfoldable pub check_door : Bool → Action (Unit {0})
check_door is_open = block_while is_open Blocker.service_door_open Event.service_door_opened

unfoldable pub check_temperature : ℤ → ℤ → Action (Unit {0})
check_temperature critical t =
    block_while (leb_ℤ critical t) Blocker.critical_temperature Event.critical_temperature_detected

-- `HealthMonitor.poll_once`
unfoldable pub poll_health : ℤ → Readings → Action (Unit {0})
unfolding block_while any_faulty check_devices check_door check_temperature on_reading
poll_health critical r = do
  on_reading check_devices r.devices
  on_reading check_door r.door_open
  on_reading (check_temperature critical) r.celsius
