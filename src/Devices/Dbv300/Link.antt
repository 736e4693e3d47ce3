-- ===== src/Devices/Dbv300/Link.antt =====
-- What the adapter calls: DBV300Protocol and DBV300Transport of devices/dbv300sd.
use flower_vending_system.Prelude.{Bool, false, List, ◌≡◌}
use flower_vending_system.Devices.Contracts.{ValidatorEvent}
use flower_vending_system.Devices.Errors.{Raised, Outcome, raised}

-- The value of a call, or its exception, and the state behind the driver after it.
abbrev pub Call : Type 0 → Type 0 → Type 0
Call T A = T → Outcome A × T

-- A protocol on its transport, with `T` the state of both. The events of `poll` are those of
-- `ValidatorProtocolEvent`, by their types and bills.
pub record Link (T : Type 0) : Type 0 where
  pub escrow_supported : Bool
  pub is_open : T → Bool
  pub open_transport : Call T (Unit {0})
  pub close_transport : Call T (Unit {0})
  pub initialize : Call T (Unit {0})
  pub shutdown : Call T (Unit {0})
  pub set_acceptance_enabled : Bool → Call T (Unit {0})
  pub poll : Call T (List ValidatorEvent)
  pub stack_escrow : Call T (Unit {0})
  pub return_escrow : Call T (Unit {0})

-- `close` leaves the transport closed, also where it raises, and so does an `open` that raises.
pub record Closes {T : Type 0} (link : Link T) : Type 0 where
  pub closes : (t : T) → link.is_open (link.close_transport t).1 ≡ false
  pub opens_or_not :
      (t : T) (e : Raised)
      → (link.open_transport t).0 ≡ raised e
      → link.is_open (link.open_transport t).1 ≡ false
