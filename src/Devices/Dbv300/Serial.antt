-- ===== src/Devices/Dbv300/Serial.antt =====
-- devices/dbv300sd/transport/serial_transport.py, over a port of pyserial.
use flower_vending_system.Prelude.{
  ℕ, zero, suc, Bool, false, Option, none, some, List, ◌≡◌, refl, inl, inr, Bool-cases,
  if◌then◌else◌,
}
use flower_vending_system.Devices.Errors.{
  adapter, transport_io, configuration, not_started, other_error, Raised, Outcome, returned, raised,
}
use flower_vending_system.Devices.Dbv300.Config.{SerialSettings}
use flower_vending_system.Devices.Dbv300.Link.{Call}

-- The module `serial`, with `P` the ports that it makes; `installed` says whether it is there.
pub record PortLibrary (P : Type 0) : Type 0 where
  pub installed : Bool
  pub make_port : SerialSettings → Outcome P
  pub port_is_open : P → Bool
  pub close_port : P → Outcome (Unit {0})
  pub write_port : List ℕ → P → Outcome (Unit {0}) × P
  pub read_port : ℕ → P → Outcome (List ℕ) × P

-- `raise TransportIOError(...) from exc`
abbrev pub as_io_error : {A : Type 0} → Outcome A → Outcome A
as_io_error (returned a) = returned a
as_io_error (raised e) = raised (adapter transport_io)

abbrev pub opened_port : {P : Type 0} → Outcome P → Option P → Outcome (Unit {0}) × Option P
opened_port (returned p) port = (returned tt, some p)
opened_port (raised e) port = (raised (adapter transport_io), port)

-- `SerialDBV300Transport`, by its `_port`.
module _ {P : Type 0} (library : PortLibrary P) where
  abbrev pub serial_is_open : Option P → Bool
  serial_is_open none = false
  serial_is_open (some p) = library.port_is_open p

  unfoldable pub open_serial : SerialSettings → Call (Option P) (Unit {0})
  open_serial s port =
      if serial_is_open port
      then (returned tt, port)
      else (if library.installed
          then opened_port (library.make_port s) port
          else (raised (adapter configuration), port))

  unfoldable pub close_serial : Call (Option P) (Unit {0})
  close_serial none = (returned tt, none)
  close_serial (some p) =
      if library.port_is_open p
      then (as_io_error (library.close_port p), none)
      else (returned tt, none)

  -- `_require_port` before `rest`
  abbrev with_port : {A : Type 0} → (P → Outcome A × P) → Call (Option P) A
  with_port rest none = (raised (adapter not_started), none)
  with_port rest (some p) =
      if library.port_is_open p
      then (as_io_error (rest p).0, some (rest p).1)
      else (raised (adapter not_started), some p)

  unfoldable pub write_serial : List ℕ → Call (Option P) (Unit {0})
  write_serial payload = with_port (library.write_port payload)

  unfoldable pub read_serial : ℕ → Call (Option P) (List ℕ)
  read_serial zero port = (raised other_error, port)
  read_serial (suc n) port = with_port (library.read_port (suc n)) port

  pub close_serial-closed : (port : Option P) → serial_is_open (close_serial port).1 ≡ false
  unfolding close_serial
  close_serial-closed none = refl
  close_serial-closed (some p) = elim (Bool-cases (library.port_is_open p)) [
    | inl e ↦ rw e refl
    | inr e ↦ rw e refl
  ]

  opened_port-closed :
      (o : Outcome P) (port : Option P) (e : Raised)
      → serial_is_open port ≡ false
      → (opened_port o port).0 ≡ raised e
      → serial_is_open (opened_port o port).1 ≡ false
  opened_port-closed (returned p) port e closed fails = cc
  opened_port-closed (raised f) port e closed fails = closed

  pub open_serial-closed :
      (s : SerialSettings) (port : Option P) (e : Raised)
      → (open_serial s port).0 ≡ raised e
      → serial_is_open (open_serial s port).1 ≡ false
  unfolding open_serial
  open_serial-closed s port e fails = elim (Bool-cases (serial_is_open port)) [
    | inl o ↦ cc
    | inr c ↦ elim (Bool-cases library.installed) [
      | inl i ↦ rw (c, i) (opened_port-closed (library.make_port s) port e c (rw (c, i) at fails))
      | inr i ↦ rw (c, i) c
    ]
  ]
