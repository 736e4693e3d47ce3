-- ===== src/Devices/Dbv300/Refusals.antt =====
-- devices/dbv300sd/adapter.py on a protocol that cannot be initialized, as are those of
-- devices/dbv300sd/protocol/base.py.
use flower_vending_system.Prelude.{
  Bool, true, false, not, ◌&&◌, Option, none, List, [], ◌∷◌, ◌≡◌, refl, ap, ◌∙◌, inl, inr,
  Bool-cases,
}
use flower_vending_system.Devices.Contracts.{FaultCode, ValidatorEvent}
use flower_vending_system.Devices.Errors.{
  Raised, adapter, hardware_confirmation, Outcome, returned, raised,
}
use flower_vending_system.Devices.Runner.{activate_fault}
use flower_vending_system.Devices.Step.{unless, ◌>>=◌, update, after}
use flower_vending_system.Devices.Dbv300.Config.{
  Kind, SerialSettings, ValidatorConfig, require_serial_transport,
}
use flower_vending_system.Devices.Dbv300.Link.{Link, Closes}
use flower_vending_system.Devices.Dbv300.Serial.{PortLibrary}
use flower_vending_system.Devices.Dbv300.Adapter.{
  Adapter, AdapterOperation, new_adapter, set_link, call, disable_first, enter_start, request_stop,
  enter_stop, safe_shutdown, rescue_start, try_protocol, start_protocol, start_adapter,
  stop_adapter, enable_acceptance, disable_acceptance, use_escrow, accept_escrow, return_escrow,
  read_event, take_event, poll_pass,
}
use flower_vending_system.Devices.Dbv300.Deferred.{
  deferred_link, deferred_link-Closes, link_of, link_for, build_link,
}
use flower_vending_system.Devices.Dbv300.Shutdown.{
  ClosesOnly, safe_shutdown-closes, raise_after-device,
}
use flower_vending_system.Devices.Dbv300.Startup.{opening, start_adapter-try}
use flower_vending_system.Devices.Dbv300.Polling.{poll_pass-Polls}
use flower_vending_system.Devices.Dbv300.Commands.{IsIdle, IsSafe}
use flower_vending_system.Devices.Dbv300.Requests.{Request, perform, perform_all}
use flower_vending_system.Devices.Dbv300.Runs.{
  perform_all-IsSafe, runs_when, polled-started, poll_pass-idle,
}

-- The protocol raises whenever it is initialized.
abbrev pub Refuses : {T : Type 0} → Link T → Type 0
Refuses {T} link = (t : T) → (e : Raised) × ((link.initialize t).0 ≡ raised e)

module _ {T : Type 0} (link : Link T) (config : ValidatorConfig) where
  abbrev IsStopped : Adapter T → Type 0
  IsStopped d = d.started ≡ false

  closed-IsStopped : (d d' : Adapter T) → IsStopped d → ClosesOnly link d d' → IsStopped d'
  closed-IsStopped d d' s (t, closed, same) = ap (λ x. x.started) same ∙ s

  guarded-IsStopped :
      (b : Bool) (e : Raised) (m : AdapterOperation T) (d : Adapter T)
      → b ≡ false
      → IsStopped d
      → IsStopped (unless (not b) e m d).1
  unfolding unless
  guarded-IsStopped true e m d n s = cc
  guarded-IsStopped false e m d n s = s

  taken-IsStopped :
      (es : List ValidatorEvent) (d : Adapter T) → IsStopped d → IsStopped (take_event es d).1
  taken-IsStopped [] d s = s
  taken-IsStopped (e ∷ es) d s = s

  poll_pass-IsStopped : (d : Adapter T) → IsStopped d → IsStopped (poll_pass link config d)
  poll_pass-IsStopped d s = elim (Bool-cases (d.parts.polling && not d.parts.stop_requested)) [
    | inl e ↦
        let (p, n) = runs_when d.parts.polling d.parts.stop_requested e in
        polled-started link config d _ _ (poll_pass-Polls link config d p n) ∙ s
    | inr e ↦ rw (poll_pass-idle link config d e) s
  ]

  module _ (closing : Closes link) (refuses : Refuses link) where
    start_protocol-refused :
        (d : Adapter T)
        → (e : Raised) × (start_protocol link config d
            ≡ (raised e, set_link (link.initialize d.parts.link).1 d))
    unfolding start_protocol ◌>>=◌ call
    start_protocol-refused d =
        let (e, h) = refuses d.parts.link in
        (
          e,
          ap
              (λ o.
                after o
                  (λ u. disable_first link config.startup_disable_acceptance >>= λ v.
                    update enter_start)
                  (set_link (link.initialize d.parts.link).1 d))
              h,
        )

    -- The validator in the `except` of its start.
    abbrev failed : Adapter T → Adapter T
    failed d =
        activate_fault FaultCode.startup_failed true (set_link (link.initialize d.parts.link).1 d)

    try_protocol-IsStopped :
        (d : Adapter T) → IsStopped d → IsStopped (try_protocol link config d).1
    unfolding try_protocol rescue_start
    try_protocol-IsStopped d s =
        let (e, h) = start_protocol-refused d in
        rw h rw (raise_after-device link e (safe_shutdown link (failed d)))
          (closed-IsStopped (failed d) _ s (safe_shutdown-closes link closing (failed d)))

    start-IsStopped : (d : Adapter T) → IsStopped d → IsStopped (start_adapter link config d).1
    start-IsStopped d s =
        rw (start_adapter-try link config closing d s) (tried (link.open_transport d.parts.link).0)
      where
        tried :
            (o : Outcome (Unit {0}))
            → IsStopped (after o (λ u. try_protocol link config) (opening link config closing d)).1
        tried (returned u) = try_protocol-IsStopped _ s
        tried (raised e) = s

    stop-IsStopped : (d : Adapter T) → IsStopped d → IsStopped (stop_adapter link d).1
    unfolding stop_adapter ◌>>=◌ update
    stop-IsStopped d s = ended (safe_shutdown link (request_stop d)).0
      where
        ended :
            (o : Outcome (Unit {0}))
            → IsStopped (after o (λ u. update enter_stop) (safe_shutdown link (request_stop d)).1).1
        ended (returned u) = refl
        ended (raised e) =
            closed-IsStopped (request_stop d) _ s
              (safe_shutdown-closes link closing (request_stop d))

    perform-IsStopped :
        (r : Request) (d : Adapter T) → IsStopped d → IsStopped (perform link config r d)
    unfolding perform accept_escrow return_escrow enable_acceptance disable_acceptance use_escrow
        read_event
    perform-IsStopped Request.start d s = start-IsStopped d s
    perform-IsStopped Request.stop d s = stop-IsStopped d s
    perform-IsStopped Request.read d s = taken-IsStopped d.parts.events d s
    perform-IsStopped Request.poll d s = poll_pass-IsStopped d s
    perform-IsStopped (Request.enable cid) d s = guarded-IsStopped d.started _ _ d s s
    perform-IsStopped (Request.disable cid) d s = guarded-IsStopped d.started _ _ d s s
    perform-IsStopped (Request.accept cid) d s = guarded-IsStopped d.started _ _ d s s
    perform-IsStopped (Request.return_bill cid) d s = guarded-IsStopped d.started _ _ d s s

    perform_all-IsStopped :
        (rs : List Request) (d : Adapter T) → IsStopped d → IsStopped (perform_all link config rs d)
    unfolding perform_all
    perform_all-IsStopped [] d s = s
    perform_all-IsStopped (r ∷ rs) d s = perform_all-IsStopped rs _ (perform-IsStopped r d s)

    still-IsIdle : (d : Adapter T) → IsStopped d → IsSafe link d → IsIdle link d
    still-IsIdle d s (inl started) = cc
    still-IsIdle d s (inr idle) = idle

    perform_all-IsIdle :
        (rs : List Request) (d : Adapter T)
        → IsStopped d
        → IsIdle link d
        → IsStopped (perform_all link config rs d) × IsIdle link (perform_all link config rs d)
    perform_all-IsIdle rs d s i = (
      perform_all-IsStopped rs d s,
      still-IsIdle (perform_all link config rs d) (perform_all-IsStopped rs d s)
          (perform_all-IsSafe link config closing rs d (inr i)),
    )

module _ {P : Type 0} (library : PortLibrary P) where
  -- A link of the repository's own is one to a placeholder.
  IsDeferred : Outcome (Link (Option P)) → Type 0
  IsDeferred (returned link) = (s : SerialSettings) × (link ≡ deferred_link library s)
  IsDeferred (raised e) = Unit {0}

  link_for-IsDeferred :
      (k : Kind) (o : Outcome SerialSettings) (c : ValidatorConfig)
      → require_serial_transport c.serial_transport ≡ o
      → IsDeferred (link_for library k c)
  unfolding link_for link_of IsDeferred
  link_for-IsDeferred Kind.serial (returned s) c e = rw e (s, refl)
  link_for-IsDeferred Kind.serial (raised f) c e = rw e tt
  link_for-IsDeferred Kind.mdb o c e = tt
  link_for-IsDeferred Kind.pulse o c e = tt

  deferred-IsIdle :
      (s : SerialSettings) (config : ValidatorConfig) (rs : List Request)
      → ((perform_all (deferred_link library s) config rs (new_adapter none)).started ≡ false)
        × IsIdle
            (deferred_link library s)
            (perform_all (deferred_link library s) config rs (new_adapter none))
  unfolding deferred_link
  deferred-IsIdle s config rs =
      perform_all-IsIdle (deferred_link library s) config (deferred_link-Closes library s)
        (λ t. (adapter hardware_confirmation, refl)) rs (new_adapter none) refl (refl, refl, refl)

  built-IsDeferred :
      (o : Outcome (Link (Option P))) (link : Link (Option P))
      → IsDeferred o
      → o ≡ returned link
      → IsDeferred (returned link)
  built-IsDeferred o link h e = rw e at h

  -- The driver that the repository can build, on a placeholder for the protocol, never starts: after
  -- any requests a new validator of it is stopped, accepts nothing, does not poll, and its serial
  -- port is closed, whatever the port answers.
  pub build_link-IsIdle :
      (config : ValidatorConfig) (link : Link (Option P)) (rs : List Request)
      → build_link library config ≡ returned link
      → ((perform_all link config rs (new_adapter none)).started ≡ false)
        × IsIdle link (perform_all link config rs (new_adapter none))
  unfolding build_link IsDeferred
  build_link-IsIdle config link rs built =
      let (s, same) : IsDeferred (returned link) =
        built-IsDeferred _ link (link_for-IsDeferred config.transport_kind _ config refl) built in
      rw same (deferred-IsIdle s config rs)
