-- ===== src/Simulators/Sensors.antt =====
-- The simulated sensors and the cooling: mock_inventory_sensor.py, mock_door_sensor.py,
-- mock_temperature_sensor.py, mock_position_sensor.py and mock_cooling_controller.py of
-- simulators/devices. A sensor's heartbeat keeps its state; temperatures are in tenths of a degree
-- and confidences in thousandths.
use flower_vending_system.Prelude.{ℕ, Bool, false}
use flower_vending_system.Prelude.Int.{ℤ}
use flower_vending_system.Prelude.Dict.{Dict, lookup_or, insert}
use flower_vending_system.App.World.{Presence}
use flower_vending_system.Devices.Contracts.{OperationalState}
use flower_vending_system.Devices.Errors.{returned}
use flower_vending_system.Devices.Runner.{heartbeat}
use flower_vending_system.Devices.Step.{Step}
use flower_vending_system.Simulators.Base.{Mock, MockDevice, with_body}

-- `_slot_states`
abbrev pub SlotStates : Type 0
SlotStates = Dict Presence

abbrev absent : Presence
absent = record { has_product = false; confidence = 0 }

module _ {R : Type 0} where
  -- `self._heartbeat(...)` with no state
  abbrev alive : {B : Type 0} → MockDevice B R → MockDevice B R
  alive d = heartbeat d.health.state d

  unfoldable pub set_slot_presence :
      ℕ → Presence → MockDevice SlotStates R → MockDevice SlotStates R
  set_slot_presence slot p d = alive (with_body (insert slot p d.parts.body) d)

  unfoldable pub read_slot : ℕ → Step (Mock SlotStates) R Presence
  read_slot slot d = (returned (lookup_or slot absent d.parts.body), alive d)

  -- `set_open` and `read_service_door`
  unfoldable pub set_open : Bool → MockDevice Bool R → MockDevice Bool R
  set_open b d = alive (with_body b d)

  unfoldable pub read_service_door : Step (Mock Bool) R Bool
  read_service_door d = (returned d.parts.body, alive d)

  unfoldable pub set_celsius : ℤ → MockDevice ℤ R → MockDevice ℤ R
  set_celsius t d = alive (with_body t d)

  unfoldable pub read_temperature : Step (Mock ℤ) R ℤ
  read_temperature d = (returned d.parts.body, alive d)

  -- The cooling: whether it is enabled, and its target.
  unfoldable pub set_enabled : Bool → MockDevice (Bool × ℤ) R → MockDevice (Bool × ℤ) R
  set_enabled b d = heartbeat OperationalState.ready (with_body (b, d.parts.body.1) d)

  unfoldable pub set_target_celsius : ℤ → MockDevice (Bool × ℤ) R → MockDevice (Bool × ℤ) R
  set_target_celsius t d = heartbeat OperationalState.ready (with_body (d.parts.body.0, t) d)
