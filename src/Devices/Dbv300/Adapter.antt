-- ===== src/Devices/Dbv300/Adapter.antt =====
-- DBV300SDValidator of devices/dbv300sd/adapter.py. A command or a pass of the polling loop is one
-- step: `stop` cancels the loop between two passes. Clock readings are left out.
use flower_vending_system.Prelude.{
  ℕ, Bool, true, false, not, ◌&&◌, Option, none, some, List, [], ◌∷◌, ◌++◌, if◌then◌else◌,
}
use flower_vending_system.App.World.{ValidatorEventType}
use flower_vending_system.Devices.Contracts.{FaultCode, OperationalState, ValidatorEvent}
use flower_vending_system.Devices.Errors.{
  Raised, adapter, not_started, unsupported, hardware_confirmation, Outcome, returned, raised,
}
use flower_vending_system.Devices.Runner.{
  Device, Operation, Command, plain_command, heartbeat, activate_fault, run_command,
}
use flower_vending_system.Devices.Step.{Step, give, unless, ◌>>=◌, ◌>>◌, update}
use flower_vending_system.Devices.Dbv300.Config.{ValidatorConfig}
use flower_vending_system.Devices.Dbv300.Link.{Call, Link}

-- The adapter's own fields and, as `link`, what is behind it. `polling` says whether the polling
-- loop runs.
pub record AdapterParts (T : Type 0) : Type 0 where
  pub link : T
  pub acceptance_enabled : Bool
  pub stop_requested : Bool
  pub polling : Bool
  pub events : List ValidatorEvent

abbrev pub Adapter : Type 0 → Type 0
Adapter T = Device (AdapterParts T) (Unit {0})

abbrev pub AdapterOperation : Type 0 → Type 0
AdapterOperation T = Operation (AdapterParts T) (Unit {0})

abbrev pub is_disabling : ValidatorEventType → Bool
is_disabling ValidatorEventType.validator_disabled = true
is_disabling _ = false

abbrev pub plain_event : ValidatorEventType → ValidatorEvent
plain_event type = record { event_type = type; bill_value = none }

module _ {T : Type 0} where
  abbrev pub new_adapter : T → Adapter T
  new_adapter t = record {
    started = false;
    health = record { state = OperationalState.unknown; faults = [] };
    cache = [];
    parts = record {
      link = t;
      acceptance_enabled = false;
      stop_requested = false;
      polling = false;
      events = [];
    };
  }

  abbrev pub set_link : T → Adapter T → Adapter T
  set_link t d = record d { parts = record d.parts { link = t } }

  abbrev pub set_acceptance : Bool → Adapter T → Adapter T
  set_acceptance b d = record d { parts = record d.parts { acceptance_enabled = b } }

  -- `await self._protocol...` or `await self._transport...`
  unfoldable pub call : {A : Type 0} → Call T A → Step (AdapterParts T) (Unit {0}) A
  call m d = ((m d.parts.link).0, set_link (m d.parts.link).1 d)

  -- `_emit_event`
  unfoldable pub emit_event : ValidatorEvent → Adapter T → Adapter T
  emit_event e d = record d {
    parts = record d.parts {
      acceptance_enabled = not (is_disabling e.event_type) && d.parts.acceptance_enabled;
      events = d.parts.events ++ (e ∷ []);
    };
  }

  -- The events of one poll: `_translate_event` keeps an event's type and bill.
  unfoldable pub emit_all : List ValidatorEvent → Adapter T → Adapter T
  unfolding emit_event
  emit_all [] d = d
  emit_all (e ∷ es) d = emit_all es (emit_event e d)

  abbrev pub enter_start : Adapter T → Adapter T
  enter_start d = record d {
    started = true;
    health = record { state = OperationalState.ready; faults = d.health.faults };
    parts = record d.parts { acceptance_enabled = false; stop_requested = false; polling = true };
  }

  abbrev pub request_stop : Adapter T → Adapter T
  request_stop d = record d { parts = record d.parts { stop_requested = true; polling = false } }

  abbrev pub enter_stop : Adapter T → Adapter T
  enter_stop d = record d {
    started = false;
    health = record { state = OperationalState.disabled; faults = d.health.faults };
    parts = record d.parts { acceptance_enabled = false };
  }

  abbrev pub end_polling : Adapter T → Adapter T
  end_polling d = record d { parts = record d.parts { polling = false } }

  -- `raise` behind a clean-up that may raise itself.
  abbrev pub raise_after : Raised → Outcome (Unit {0}) × Adapter T → Outcome (Unit {0}) × Adapter T
  raise_after e (returned u, d) = (raised e, d)
  raise_after e (raised f, d) = (raised f, d)

  -- The end of a `finally` that may raise itself.
  abbrev pub finish :
      Outcome (Unit {0}) → Outcome (Unit {0}) × Adapter T → Outcome (Unit {0}) × Adapter T
  finish o (returned u, d) = (o, d)
  finish o (raised f, d) = (raised f, d)

module _ {T : Type 0} (link : Link T) where
  unfoldable pub close_if_open : Outcome (Unit {0}) × Adapter T → Outcome (Unit {0}) × Adapter T
  unfolding call
  close_if_open (o, d) =
      if link.is_open d.parts.link then finish o (call link.close_transport d) else (o, d)

  -- `_safe_shutdown_transport`
  unfoldable pub safe_shutdown : AdapterOperation T
  unfolding call
  safe_shutdown d =
      close_if_open (if link.is_open d.parts.link then call link.shutdown d else (returned tt, d))

  unfoldable pub stop_adapter : AdapterOperation T
  unfolding ◌>>=◌ update safe_shutdown
  stop_adapter = do update request_stop; safe_shutdown; update enter_stop

  unfoldable pub enable_once : AdapterOperation T
  unfolding ◌>>=◌ update call
  enable_once = do call (link.set_acceptance_enabled true); update (set_acceptance true)

  unfoldable pub disable_once : AdapterOperation T
  unfolding ◌>>=◌ update call emit_event
  disable_once = do
    call (link.set_acceptance_enabled false)
    update (set_acceptance false)
    update (emit_event (plain_event ValidatorEventType.validator_disabled))

  unfoldable pub disable_first : Bool → AdapterOperation T
  unfolding call give
  disable_first true = call (link.set_acceptance_enabled false)
  disable_first false = give tt

abbrev pub disable_command : Option ℕ → Command (Unit {0})
disable_command cid = record (plain_command {R = Unit {0}} 1 cid) {
  success_state = OperationalState.disabled;
}

module _ {T : Type 0} (link : Link T) (config : ValidatorConfig) where
  -- The `try` of `start`
  unfoldable pub start_protocol : AdapterOperation T
  unfolding call ◌>>=◌ give update
  start_protocol = do
    call link.initialize
    disable_first link config.startup_disable_acceptance
    update enter_start

  -- The `except` of `start`
  unfoldable pub rescue_start : Outcome (Unit {0}) × Adapter T → Outcome (Unit {0}) × Adapter T
  unfolding safe_shutdown
  rescue_start (returned u, d) = (returned u, d)
  rescue_start (raised e, d) =
      raise_after e (safe_shutdown link (activate_fault FaultCode.startup_failed true d))

  unfoldable pub try_protocol : AdapterOperation T
  unfolding start_protocol
  try_protocol d = rescue_start (start_protocol d)

  unfoldable pub start_adapter : AdapterOperation T
  unfolding call ◌>>=◌ start_protocol safe_shutdown
  start_adapter d =
      if d.started
      then (returned tt, d)
      else (call link.open_transport >>= λ _. try_protocol)
          (heartbeat OperationalState.initializing d)

  -- The numbers of the commands' names: enable_acceptance 0, disable_acceptance 1,
  -- accept_escrow 2, return_escrow 3.
  unfoldable pub enable_acceptance : Option ℕ → AdapterOperation T
  unfolding unless run_command enable_once
  enable_acceptance cid d =
      unless (not d.started) (adapter not_started)
        (run_command config.command_policy (plain_command 0 cid) (enable_once link)) d

  unfoldable pub disable_acceptance : Option ℕ → AdapterOperation T
  unfolding unless run_command disable_once
  disable_acceptance cid d =
      unless (not d.started) (adapter not_started)
        (run_command config.command_policy (disable_command cid) (disable_once link)) d

  -- The body of `accept_escrow` and `return_escrow`.
  unfoldable pub use_escrow : ℕ → Call T (Unit {0}) → Option ℕ → AdapterOperation T
  unfolding unless run_command call
  use_escrow name m cid d =
      unless (not d.started) (adapter not_started)
        (unless (not link.escrow_supported) (adapter unsupported)
          (run_command config.command_policy (plain_command name cid) (call m)))
        d

  unfoldable pub accept_escrow : Option ℕ → AdapterOperation T
  unfolding use_escrow
  accept_escrow = use_escrow 2 link.stack_escrow

  unfoldable pub return_escrow : Option ℕ → AdapterOperation T
  unfolding use_escrow
  return_escrow = use_escrow 3 link.return_escrow

  -- `_handle_fault`: an exception of the last call is swallowed.
  unfoldable pub handle_fault : Adapter T → Adapter T
  unfolding call emit_event
  handle_fault d =
      let faulted =
        emit_event (plain_event ValidatorEventType.validator_fault)
          (activate_fault FaultCode.validator_fault true (set_acceptance false d)) in
      if config.fallback_disable_on_fault
      then (call (link.set_acceptance_enabled false) faulted).1
      else faulted

  -- The rest of a pass of `_poll_loop`, from the answer of `poll`.
  unfoldable pub after_poll : Outcome (List ValidatorEvent) × Adapter T → Adapter T
  unfolding emit_all handle_fault
  after_poll (returned es, d) = emit_all es (heartbeat OperationalState.ready d)
  after_poll (raised (adapter hardware_confirmation), d) = end_polling (handle_fault d)
  after_poll (raised e, d) = handle_fault d

  -- A pass of `_poll_loop`, if the loop runs.
  unfoldable pub poll_pass : Adapter T → Adapter T
  unfolding call emit_all handle_fault
  poll_pass d =
      if d.parts.polling && not d.parts.stop_requested then after_poll (call link.poll d) else d

module _ {T : Type 0} where
  abbrev pub take_event :
      List ValidatorEvent → Step (AdapterParts T) (Unit {0}) (Option ValidatorEvent)
  take_event [] d = (returned none, d)
  take_event (e ∷ es) d = (returned (some e), record d { parts = record d.parts { events = es } })

  -- `read_event` with a time-out: none if the queue stays empty.
  unfoldable pub read_event : Step (AdapterParts T) (Unit {0}) (Option ValidatorEvent)
  read_event d = take_event d.parts.events d
