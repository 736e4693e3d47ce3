-- ===== src/Devices/Dbv300/Polling.antt =====
-- devices/dbv300sd/adapter.py: what a pass of the polling loop does.
use flower_vending_system.Prelude.{
  Bool, true, false, not, ◌&&◌, ◌||◌, List, [], ◌∷◌, ◌++◌, ◌≡◌, refl, inl, inr, Bool-cases,
  if◌then◌else◌, sym, ap, ◌∙◌, append-nil, append_assoc,
}
use flower_vending_system.App.World.{ValidatorEventType}
use flower_vending_system.Devices.Contracts.{ValidatorEvent, OperationalState}
use flower_vending_system.Devices.Errors.{
  Raised, command, timed_out, adapter, other_error, hardware_confirmation, adapter_error,
  not_started, unsupported, transport_io, configuration, Outcome, returned, raised,
}
use flower_vending_system.Devices.Runner.{heartbeat}
use flower_vending_system.Devices.Dbv300.Config.{ValidatorConfig}
use flower_vending_system.Devices.Dbv300.Link.{Link}
use flower_vending_system.Devices.Dbv300.Adapter.{
  Adapter, set_link, call, is_disabling, emit_event, emit_all, plain_event, end_polling,
  handle_fault, after_poll, poll_pass,
}

abbrev pub needs_confirmation : Raised → Bool
needs_confirmation (adapter hardware_confirmation) = true
needs_confirmation _ = false

-- Whether one of the events says that the validator is disabled.
abbrev pub disables : List ValidatorEvent → Bool
disables [] = false
disables (e ∷ es) = is_disabling e.event_type || disables es

not_or : (a b c : Bool) → (not b && (not a && c)) ≡ (not (a || b) && c)
not_or true true c = refl
not_or true false c = refl
not_or false true c = refl
not_or false false c = refl

module _ {T : Type 0} where
  -- What the events of a poll leave alone.
  record Emitted (es : List ValidatorEvent) (d d' : Adapter T) : Type 0 where
    queue : d'.parts.events ≡ d.parts.events ++ es
    accepting : d'.parts.acceptance_enabled ≡ (not (disables es) && d.parts.acceptance_enabled)
    same_health : d'.health ≡ d.health
    same_polling : d'.parts.polling ≡ d.parts.polling
    same_link : d'.parts.link ≡ d.parts.link
    same_started : d'.started ≡ d.started

  emit_all-Emitted : (es : List ValidatorEvent) (d : Adapter T) → Emitted es d (emit_all es d)
  unfolding emit_all emit_event
  emit_all-Emitted [] d = record {
    queue = sym (append-nil d.parts.events);
    accepting = refl;
    same_health = refl;
    same_polling = refl;
    same_link = refl;
    same_started = refl;
  }
  emit_all-Emitted (e ∷ es) d =
      let rest = emit_all-Emitted es (emit_event e d) in
      record {
        queue = rest.queue ∙ append_assoc d.parts.events (e ∷ []) es;
        accepting =
            rest.accepting
            ∙ not_or (is_disabling e.event_type) (disables es) d.parts.acceptance_enabled;
        same_health = rest.same_health;
        same_polling = rest.same_polling;
        same_link = rest.same_link;
        same_started = rest.same_started;
      }

module _ {T : Type 0} (link : Link T) (config : ValidatorConfig) where
  -- What a pass does to `d`, from the answer of `poll`.
  abbrev pub Polls : Adapter T → Outcome (List ValidatorEvent) → Adapter T → Type 0
  Polls d (returned es) d' =
      (d'.parts.events ≡ d.parts.events ++ es)
      × (d'.parts.acceptance_enabled ≡ (not (disables es) && d.parts.acceptance_enabled))
      × (d'.health ≡ record { state = OperationalState.ready; faults = d.health.faults })
      × (d'.parts.polling ≡ d.parts.polling)
      × (d'.parts.link ≡ (link.poll d.parts.link).1)
      × (d'.started ≡ d.started)
  Polls d (raised e) d' =
      (d'.parts.events ≡ d.parts.events ++ (plain_event ValidatorEventType.validator_fault ∷ []))
      × (d'.parts.acceptance_enabled ≡ false)
      × (d'.health.state ≡ OperationalState.fault)
      × (d'.parts.polling ≡ (not (needs_confirmation e) && d.parts.polling))
      × (d'.parts.link ≡ (
          if config.fallback_disable_on_fault
          then (link.set_acceptance_enabled false (link.poll d.parts.link).1).1
          else (link.poll d.parts.link).1))
      × (d'.started ≡ d.started)

  handle_fault-Polls :
      (e : Raised) (d : Adapter T)
      → needs_confirmation e ≡ false
      → Polls d (raised e) (handle_fault link config (set_link (link.poll d.parts.link).1 d))
  unfolding handle_fault emit_event call
  handle_fault-Polls e d n = elim (Bool-cases config.fallback_disable_on_fault) [
    | inl f ↦ rw (f, n) (refl, refl, refl, refl, refl, refl)
    | inr f ↦ rw (f, n) (refl, refl, refl, refl, refl, refl)
  ]

  stopped-Polls :
      (d : Adapter T)
      → Polls d
          (raised (adapter hardware_confirmation))
          (end_polling (handle_fault link config (set_link (link.poll d.parts.link).1 d)))
  unfolding handle_fault emit_event call
  stopped-Polls d = elim (Bool-cases config.fallback_disable_on_fault) [
    | inl f ↦ rw f (refl, refl, refl, refl, refl, refl)
    | inr f ↦ rw f (refl, refl, refl, refl, refl, refl)
  ]

  after_poll-Polls :
      (d : Adapter T) (o : Outcome (List ValidatorEvent))
      → Polls d o (after_poll link config (o, set_link (link.poll d.parts.link).1 d))
  unfolding after_poll call
  after_poll-Polls d (returned es) =
      let h =
        emit_all-Emitted es
          (heartbeat OperationalState.ready (set_link (link.poll d.parts.link).1 d)) in
      (h.queue, h.accepting, h.same_health, h.same_polling, h.same_link, h.same_started)
  after_poll-Polls d (raised (command e)) = handle_fault-Polls (command e) d refl
  after_poll-Polls d (raised timed_out) = handle_fault-Polls timed_out d refl
  after_poll-Polls d (raised other_error) = handle_fault-Polls other_error d refl
  after_poll-Polls d (raised (adapter hardware_confirmation)) = stopped-Polls d
  after_poll-Polls d (raised (adapter adapter_error)) =
      handle_fault-Polls (adapter adapter_error) d refl
  after_poll-Polls d (raised (adapter not_started)) =
      handle_fault-Polls (adapter not_started) d refl
  after_poll-Polls d (raised (adapter unsupported)) =
      handle_fault-Polls (adapter unsupported) d refl
  after_poll-Polls d (raised (adapter transport_io)) =
      handle_fault-Polls (adapter transport_io) d refl
  after_poll-Polls d (raised (adapter configuration)) =
      handle_fault-Polls (adapter configuration) d refl

  poll_pass-runs :
      (d : Adapter T)
      → d.parts.polling ≡ true
      → d.parts.stop_requested ≡ false
      → poll_pass link config d ≡ after_poll link config (call link.poll d)
  unfolding poll_pass
  poll_pass-runs d p s =
      ap (λ b. if b then after_poll link config (call link.poll d) else d)
        (ap (λ b. b && not d.parts.stop_requested) p ∙ ap not s)

  -- A pass of the polling loop puts the events of the poll behind those that wait, in their order,
  -- and the acceptance stays as it is unless one of them says that the validator is disabled. If the
  -- poll raises, one fault event is put there, the acceptance is off, the state FAULT, and the
  -- protocol is told to accept nothing where the configuration says so; the loop ends if a hardware
  -- confirmation is missing, and goes on after any other exception.
  pub poll_pass-Polls :
      (d : Adapter T)
      → d.parts.polling ≡ true
      → d.parts.stop_requested ≡ false
      → Polls d (link.poll d.parts.link).0 (poll_pass link config d)
  unfolding call
  poll_pass-Polls d p s = rw (poll_pass-runs d p s) (after_poll-Polls d (link.poll d.parts.link).0)
