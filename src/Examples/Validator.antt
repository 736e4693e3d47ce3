-- ===== src/Examples/Validator.antt =====
-- The validator driver at work: devices/dbv300sd.
use flower_vending_system.Prelude.{Bool, true, false, none, some, List, [], ◌∷◌, ◌≡◌, refl, inr}
use flower_vending_system.Prelude.Int.{pos}
use flower_vending_system.App.World.{ValidatorEventType}
use flower_vending_system.Devices.Contracts.{default_policy}
use flower_vending_system.Devices.Errors.{other_error, returned, raised}
use flower_vending_system.Devices.Dbv300.Config.{Kind, SerialSettings, ValidatorConfig}
use flower_vending_system.Devices.Dbv300.Link.{Link, Closes}
use flower_vending_system.Devices.Dbv300.Serial.{PortLibrary}
use flower_vending_system.Devices.Dbv300.Adapter.{
  Adapter, new_adapter, plain_event, start_adapter, stop_adapter, poll_pass,
}
use flower_vending_system.Devices.Dbv300.Deferred.{deferred_link, link_of, link_for, build_link}
use flower_vending_system.Devices.Dbv300.Shutdown.{Stops, stop_adapter-Stops}
use flower_vending_system.Devices.Dbv300.Startup.{Starts, start_adapter-Starts}
use flower_vending_system.Devices.Dbv300.Polling.{Polls, poll_pass-Polls}
use flower_vending_system.Devices.Dbv300.Commands.{IsIdle, IsSafe}
use flower_vending_system.Devices.Dbv300.Requests.{Request, perform_all}
use flower_vending_system.Devices.Dbv300.Runs.{perform_all-IsSafe}
use flower_vending_system.Devices.Dbv300.Refusals.{build_link-IsIdle}

abbrev com3 : SerialSettings
com3 = record { port = 3; baudrate = pos 9600; read_timeout = pos 200; write_timeout = pos 200 }

abbrev lab_config : ValidatorConfig
lab_config = record {
  device_name = 1;
  transport_kind = Kind.serial;
  protocol_kind = Kind.serial;
  serial_transport = some com3;
  poll_interval = pos 200;
  startup_disable_acceptance = true;
  fallback_disable_on_fault = true;
  command_policy = default_policy;
}

-- Ports that open, and are closed by dropping them.
abbrev open_ports : PortLibrary (Unit {0})
open_ports = record {
  installed = true;
  make_port = λ s. returned tt;
  port_is_open = λ p. true;
  close_port = λ p. returned tt;
  write_port = λ bytes p. (returned tt, p);
  read_port = λ n p. (returned [], p);
}

-- A protocol that polls a rejected bill, does not shut down, and keeps whether its transport is open.
abbrev stubborn_link : Link Bool
stubborn_link = record {
  escrow_supported = false;
  is_open = λ t. t;
  open_transport = λ t. (returned tt, true);
  close_transport = λ t. (returned tt, false);
  initialize = λ t. (returned tt, t);
  shutdown = λ t. (raised other_error, t);
  set_acceptance_enabled = λ b t. (returned tt, t);
  poll = λ t. (returned (plain_event ValidatorEventType.bill_rejected ∷ []), t);
  stack_escrow = λ t. (raised other_error, t);
  return_escrow = λ t. (raised other_error, t);
}

stubborn_link-Closes : Closes stubborn_link
stubborn_link-Closes = record { closes = λ t. refl; opens_or_not = λ t e h. cc }

abbrev running : Adapter Bool
running = record (new_adapter false) {
  started = true;
  parts = record {
    link = true;
    acceptance_enabled = true;
    stop_requested = false;
    polling = true;
    events = [];
  };
}

start_adapter-Starts_example :
    Starts stubborn_link lab_config stubborn_link-Closes
      (new_adapter false)
      (returned tt)
      (start_adapter stubborn_link lab_config (new_adapter false))
start_adapter-Starts_example =
    start_adapter-Starts stubborn_link lab_config stubborn_link-Closes (new_adapter false) refl

stop_adapter-Stops_example :
    Stops stubborn_link lab_config stubborn_link-Closes running (stop_adapter stubborn_link running)
stop_adapter-Stops_example =
    stop_adapter-Stops stubborn_link lab_config stubborn_link-Closes running refl

poll_pass-Polls_example :
    Polls stubborn_link lab_config running
      (returned (plain_event ValidatorEventType.bill_rejected ∷ []))
      (poll_pass stubborn_link lab_config running)
poll_pass-Polls_example = poll_pass-Polls stubborn_link lab_config running refl refl

abbrev visit : List Request
visit = Request.start ∷ Request.enable (some 5) ∷ Request.poll ∷ Request.stop ∷ []

perform_all-IsSafe_example :
    IsSafe stubborn_link (perform_all stubborn_link lab_config visit (new_adapter false))
perform_all-IsSafe_example =
    perform_all-IsSafe stubborn_link lab_config stubborn_link-Closes visit (new_adapter false)
      (inr (refl, refl, refl))

lab_link : build_link open_ports lab_config ≡ returned (deferred_link open_ports com3)
unfolding build_link link_for link_of
lab_link = refl

build_link-IsIdle_example :
    ((perform_all (deferred_link open_ports com3) lab_config visit (new_adapter none)).started
      ≡ false)
    × IsIdle
        (deferred_link open_ports com3)
        (perform_all (deferred_link open_ports com3) lab_config visit (new_adapter none))
build_link-IsIdle_example =
    build_link-IsIdle open_ports lab_config (deferred_link open_ports com3) visit lab_link
