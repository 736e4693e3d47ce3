-- ===== src/Devices/Dbv300/Config.antt =====
-- devices/dbv300sd/config.py. The blank text is 0; times are in milliseconds.
use flower_vending_system.Prelude.{
  ℕ, Bool, true, false, ◌&&◌, ◌||◌, not, Option, none, some, ◌==◌, is_some,
}
use flower_vending_system.Prelude.Int.{ℤ, pos, leb_ℤ}
use flower_vending_system.Devices.Contracts.{CommandPolicy}
use flower_vending_system.Devices.Errors.{adapter, configuration, Outcome, returned, raised}

-- `DBV300TransportKind` and `DBV300ProtocolKind`
pub data Kind : Type 0 where
  serial mdb pulse : Kind

abbrev pub is_serial : Kind → Bool
is_serial Kind.serial = true
is_serial _ = false

pub record SerialSettings : Type 0 where
  pub port : ℕ
  pub baudrate : ℤ
  pub read_timeout : ℤ
  pub write_timeout : ℤ

abbrev pub config_check : {A : Type 0} → Bool → Outcome A → Outcome A
config_check true r = raised (adapter configuration)
config_check false r = r

-- `SerialTransportSettings.__post_init__`
unfoldable pub check_settings : SerialSettings → Outcome SerialSettings
check_settings s = config_check (s.port == 0) (
    config_check (leb_ℤ s.baudrate (pos 0))
      (config_check (leb_ℤ s.read_timeout (pos 0) || leb_ℤ s.write_timeout (pos 0)) (returned s)))

pub record ValidatorConfig : Type 0 where
  pub device_name : ℕ
  pub transport_kind : Kind
  pub protocol_kind : Kind
  pub serial_transport : Option SerialSettings
  pub poll_interval : ℤ
  pub startup_disable_acceptance : Bool
  pub fallback_disable_on_fault : Bool
  pub command_policy : CommandPolicy

-- `DBV300SDValidatorConfig.__post_init__`
unfoldable pub check_config : ValidatorConfig → Outcome ValidatorConfig
check_config c = config_check (c.device_name == 0) (
    config_check (leb_ℤ c.poll_interval (pos 0))
      (config_check (is_serial c.transport_kind && not (is_some c.serial_transport)) (returned c)))

abbrev pub require_serial_transport : Option SerialSettings → Outcome SerialSettings
require_serial_transport none = raised (adapter configuration)
require_serial_transport (some s) = returned s
