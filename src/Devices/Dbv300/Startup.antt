-- ===== src/Devices/Dbv300/Startup.antt =====
-- devices/dbv300sd/adapter.py: how `start` ends.
use flower_vending_system.Prelude.{if◌then◌else◌, [], ◌∷◌, Bool, true, false, ◌≡◌, refl, ap}
use flower_vending_system.Devices.Contracts.{FaultCode, OperationalState}
use flower_vending_system.Devices.Errors.{Raised, Outcome, returned, raised}
use flower_vending_system.Devices.Runner.{activate_fault, heartbeat}
use flower_vending_system.Devices.Step.{◌>>=◌, update, after}
use flower_vending_system.Devices.Dbv300.Config.{ValidatorConfig}
use flower_vending_system.Devices.Step.Leads.{Post, Leads, Leads-bind, Leads-update, Leads-give}
use flower_vending_system.Devices.Dbv300.Link.{Call, Link, Closes}
use flower_vending_system.Devices.Dbv300.Adapter.{
  Adapter, set_link, call, raise_after, disable_first, enter_start, rescue_start, try_protocol,
  start_protocol, start_adapter,
}
use flower_vending_system.Devices.Dbv300.Shutdown.{ClosesOnly, safe_shutdown-closes}

module _ {T : Type 0} where
  -- A call behind the driver changes what is behind it only.
  pub Leads-call :
      {A : Type 0} {Q : A → Adapter T → Type 0} {E : Raised → Adapter T → Type 0} (m : Call T A)
      (d : Adapter T)
      → ((a : A) → Q a (set_link (m d.parts.link).1 d))
      → ((e : Raised) → E e (set_link (m d.parts.link).1 d))
      → Leads (call m) Q E d
  unfolding call
  Leads-call {A} {Q} {E} m d f g = record { post = split (m d.parts.link).0 }
    where
      split : (o : Outcome A) → Post Q E (o, set_link (m d.parts.link).1 d)
      split (returned a) = f a
      split (raised e) = g e

module _ {T : Type 0} (link : Link T) (config : ValidatorConfig) (closing : Closes link) where
  start_protocol-Leads :
      (d : Adapter T)
      → Leads
          (start_protocol link config)
          (λ u d'. (t : T) × (d' ≡ enter_start (set_link t d)))
          (λ e d'. (t : T) × (d' ≡ set_link t d))
          d
  unfolding start_protocol disable_first
  start_protocol-Leads d = Leads-bind _ _ d (
      Leads-call link.initialize d
        (λ u. Leads-bind _ _ _ (
          first config.startup_disable_acceptance (set_link (link.initialize d.parts.link).1 d) _
            refl))
        (λ e. (_, refl)))
    where
      first :
          (b : Bool) (d' : Adapter T) (t : T)
          → d' ≡ set_link t d
          → Leads
              (disable_first link b)
              (λ u.
                Leads
                  (update enter_start)
                  (λ u d'. (t : T) × (d' ≡ enter_start (set_link t d)))
                  (λ e d'. (t : T) × (d' ≡ set_link t d)))
              (λ e d'. (t : T) × (d' ≡ set_link t d))
              d'
      first true d' t same =
          Leads-call (link.set_acceptance_enabled false) d'
            (λ u. Leads-update enter_start _ (
              (link.set_acceptance_enabled false d'.parts.link).1,
              ap (λ x. enter_start (set_link (link.set_acceptance_enabled false d'.parts.link).1 x))
                  same,
            ))
            (λ e. (
              (link.set_acceptance_enabled false d'.parts.link).1,
              ap (set_link (link.set_acceptance_enabled false d'.parts.link).1) same,
            ))
      first false d' t same =
          Leads-give tt d' (Leads-update enter_start d' (t, ap enter_start same))

  -- How a start ends that found the validator stopped: from `o`, the end of the opening of the
  -- transport.
  abbrev pub Starts : Adapter T → Outcome (Unit {0}) → Outcome (Unit {0}) × Adapter T → Type 0
  Starts d (raised f) (returned u, d') = ⊥
  Starts d (returned v) (returned u, d') =
      (d'.started ≡ true)
      × (d'.health.state ≡ OperationalState.ready)
      × (d'.parts.acceptance_enabled ≡ false)
      × (d'.parts.polling ≡ true)
      × (d'.parts.stop_requested ≡ false)
  Starts d (returned v) (raised e, d') =
      (d'.started ≡ false)
      × (d'.health ≡ record {
        state = OperationalState.fault;
        faults = record { code = FaultCode.startup_failed; critical = true } ∷ [];
      })
      × (d'.parts.acceptance_enabled ≡ d.parts.acceptance_enabled)
      × (d'.parts.polling ≡ d.parts.polling)
      × (link.is_open d'.parts.link ≡ false)
  Starts d (raised f) (raised e, d') =
      (d'.started ≡ false)
      × (d'.health.state ≡ OperationalState.initializing)
      × (d'.parts.acceptance_enabled ≡ d.parts.acceptance_enabled)
      × (d'.parts.polling ≡ d.parts.polling)
      × (link.is_open d'.parts.link ≡ false)
      × (e ≡ f)

  raise_after-raises :
      (d : Adapter T) (e : Raised) (r : Outcome (Unit {0}) × Adapter T)
      → Starts d (returned tt) (raised e, r.1)
      → Starts d (returned tt) (raise_after e r)
  raise_after-raises d e (returned u, d') h = h
  raise_after-raises d e (raised f, d') h = h

  closed-Starts :
      (e : Raised) (d before after : Adapter T) (t : T)
      → before ≡ set_link t d
      → d.started ≡ false
      → ClosesOnly link (activate_fault FaultCode.startup_failed true before) after
      → Starts d (returned tt) (raised e, after)
  closed-Starts e d before after t same s (t', closed, shut) =
      rw (shut, same) (s, refl, refl, refl, closed)

  rescue_start-Starts :
      (r : Outcome (Unit {0}) × Adapter T) (d : Adapter T)
      → d.started ≡ false
      → Post
          (λ u d'. (t : T) × (d' ≡ enter_start (set_link t d)))
          (λ e d'. (t : T) × (d' ≡ set_link t d))
          r
      → Starts d (returned tt) (rescue_start link config r)
  unfolding rescue_start
  rescue_start-Starts (returned u, d') d s (t, same) = rw same (refl, refl, refl, refl, refl)
  rescue_start-Starts (raised e, d') d s (t, same) = raise_after-raises d e _ (
      closed-Starts e d d' _ t same s
        (safe_shutdown-closes link closing (activate_fault FaultCode.startup_failed true d')))

  -- The stopped validator behind the opening of its transport.
  abbrev pub opening : Adapter T → Adapter T
  opening d =
      set_link (link.open_transport d.parts.link).1 (heartbeat OperationalState.initializing d)

  pub start_adapter-try :
      (d : Adapter T)
      → d.started ≡ false
      → start_adapter link config d
        ≡ after (link.open_transport d.parts.link).0 (λ u. try_protocol link config) (opening d)
  unfolding start_adapter ◌>>=◌ call
  start_adapter-try d s =
      ap
        (λ b.
          if b
          then (returned tt, d)
          else after (link.open_transport d.parts.link).0 (λ u. try_protocol link config)
              (opening d))
        s

  try_protocol-Starts :
      (o : Outcome (Unit {0})) (d : Adapter T)
      → (link.open_transport d.parts.link).0 ≡ o
      → d.started ≡ false
      → Starts d o (after o (λ u. try_protocol link config) (opening d))
  unfolding try_protocol
  try_protocol-Starts (returned u) d open_end s =
      rescue_start-Starts (start_protocol link config (opening d)) (opening d) s
        (start_protocol-Leads (opening d)).post
  try_protocol-Starts (raised f) d open_end s =
      (s, refl, refl, refl, closing.opens_or_not d.parts.link f open_end, refl)

  -- A start of a stopped validator that returns has opened the transport and leaves the validator
  -- ready and polling, with the acceptance off. If the transport does not open, the start raises that
  -- exception with the state INITIALIZING; if it raises later, the state is FAULT by
  -- `startup_failed`. Either way the validator stays stopped and its transport is closed.
  pub start_adapter-Starts :
      (d : Adapter T)
      → d.started ≡ false
      → Starts d (link.open_transport d.parts.link).0 (start_adapter link config d)
  start_adapter-Starts d s =
      rw (start_adapter-try d s) (try_protocol-Starts (link.open_transport d.parts.link).0 d refl s)
