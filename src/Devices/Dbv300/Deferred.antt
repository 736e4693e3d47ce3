-- ===== src/Devices/Dbv300/Deferred.antt =====
-- The placeholders for the protocols: devices/dbv300sd/protocol/base.py, on the serial transport.
use flower_vending_system.Prelude.{false, Option}
use flower_vending_system.Devices.Errors.{adapter, hardware_confirmation, Outcome, returned, raised}
use flower_vending_system.Devices.Dbv300.Config.{
  Kind, SerialSettings, ValidatorConfig, require_serial_transport,
}
use flower_vending_system.Devices.Dbv300.Link.{Call, Link, Closes}
use flower_vending_system.Devices.Dbv300.Serial.{
  PortLibrary, serial_is_open, open_serial, close_serial, close_serial-closed, open_serial-closed,
}

-- `raise self._hardware_confirmation_error()`
abbrev pub refuse : {T A : Type 0} → Call T A
refuse t = (raised (adapter hardware_confirmation), t)

module _ {P : Type 0} (library : PortLibrary P) where
  -- `_DeferredProtocol`, the same for each of its three subclasses.
  unfoldable pub deferred_link : SerialSettings → Link (Option P)
  unfolding open_serial close_serial
  deferred_link s = record {
    escrow_supported = false;
    is_open = serial_is_open library;
    open_transport = open_serial library s;
    close_transport = close_serial library;
    initialize = refuse;
    shutdown = λ t. (returned tt, t);
    set_acceptance_enabled = λ b. refuse;
    poll = refuse;
    stack_escrow = refuse;
    return_escrow = refuse;
  }

  pub deferred_link-Closes : (s : SerialSettings) → Closes (deferred_link s)
  unfolding deferred_link close_serial open_serial
  deferred_link-Closes s = record {
    closes = close_serial-closed library;
    opens_or_not = open_serial-closed library s;
  }

  unfoldable pub link_of : Outcome SerialSettings → Outcome (Link (Option P))
  unfolding deferred_link
  link_of (returned s) = returned (deferred_link s)
  link_of (raised e) = raised e

  unfoldable pub link_for : Kind → ValidatorConfig → Outcome (Link (Option P))
  unfolding link_of
  link_for Kind.serial c = link_of (require_serial_transport c.serial_transport)
  link_for Kind.mdb c = raised (adapter hardware_confirmation)
  link_for Kind.pulse c = raised (adapter hardware_confirmation)

  -- `build_dbv300sd_validator`, without the adapter: only the serial transport can be built.
  unfoldable pub build_link : ValidatorConfig → Outcome (Link (Option P))
  unfolding link_for
  build_link c = link_for c.transport_kind c
