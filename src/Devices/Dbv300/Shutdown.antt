-- ===== src/Devices/Dbv300/Shutdown.antt =====
-- devices/dbv300sd/adapter.py: how `stop` ends.
use flower_vending_system.Prelude.{true, false, ◌≡◌, refl, inl, inr, Bool-cases}
use flower_vending_system.Devices.Contracts.{OperationalState}
use flower_vending_system.Devices.Errors.{Raised, Outcome, returned, raised}
use flower_vending_system.Devices.Step.{◌>>=◌, update, after}
use flower_vending_system.Devices.Dbv300.Config.{ValidatorConfig}
use flower_vending_system.Devices.Dbv300.Link.{Link, Closes}
use flower_vending_system.Devices.Dbv300.Adapter.{
  Adapter, set_link, call, finish, raise_after, request_stop, enter_stop, close_if_open,
  safe_shutdown, stop_adapter, start_adapter,
}

module _ {T : Type 0} (link : Link T) where
  -- The device is `d` but for what is behind the driver, where the transport is closed.
  abbrev pub ClosesOnly : Adapter T → Adapter T → Type 0
  ClosesOnly d d' = (t : T) × (link.is_open t ≡ false) × (d' ≡ set_link t d)

  finish-device :
      (o : Outcome (Unit {0})) (r : Outcome (Unit {0}) × Adapter T) → (finish o r).1 ≡ r.1
  finish-device o (returned u, d) = refl
  finish-device o (raised f, d) = refl

  pub raise_after-device :
      (e : Raised) (r : Outcome (Unit {0}) × Adapter T) → (raise_after e r).1 ≡ r.1
  raise_after-device e (returned u, d) = refl
  raise_after-device e (raised f, d) = refl

  module _ (closing : Closes link) where
    close_if_open-closes :
        (o : Outcome (Unit {0})) (t : T) (d : Adapter T)
        → ClosesOnly d (close_if_open link (o, set_link t d)).1
    unfolding close_if_open call
    close_if_open-closes o t d = elim (Bool-cases (link.is_open t)) [
      | inl e ↦ (
        (link.close_transport t).1,
        closing.closes t,
        rw e (finish-device o (call link.close_transport (set_link t d))),
      )
      | inr e ↦ (t, e, rw e refl)
    ]

    pub safe_shutdown-closes : (d : Adapter T) → ClosesOnly d (safe_shutdown link d).1
    unfolding safe_shutdown call
    safe_shutdown-closes d = elim (Bool-cases (link.is_open d.parts.link)) [
      | inl e ↦
          rw e
            (close_if_open-closes (link.shutdown d.parts.link).0 (link.shutdown d.parts.link).1 d)
      | inr e ↦ rw e (close_if_open-closes (returned tt) d.parts.link d)
    ]

module _ {T : Type 0} (link : Link T) (config : ValidatorConfig) (closing : Closes link) where
  -- How `stop` ends: its last line, behind the shut-down, is not run if that raises.
  abbrev pub Stops : Adapter T → Outcome (Unit {0}) × Adapter T → Type 0
  Stops d (returned u, d') =
      (d'.started ≡ false)
      × (d'.health.state ≡ OperationalState.disabled)
      × (d'.parts.acceptance_enabled ≡ false)
      × (d'.parts.polling ≡ false)
      × (link.is_open d'.parts.link ≡ false)
  Stops d (raised e, d') =
      (start_adapter link config d' ≡ (returned tt, d'))
      × (d'.parts.acceptance_enabled ≡ d.parts.acceptance_enabled)
      × (d'.parts.polling ≡ false)
      × (link.is_open d'.parts.link ≡ false)

  pub started_again :
      (d : Adapter T) → d.started ≡ true → start_adapter link config d ≡ (returned tt, d)
  unfolding start_adapter
  started_again d s = rw s refl

  after_shutdown-Stops :
      (o : Outcome (Unit {0})) (d d' : Adapter T)
      → d.started ≡ true
      → ClosesOnly link (request_stop d) d'
      → Stops d (after o (λ u. update enter_stop) d')
  unfolding update
  after_shutdown-Stops (returned u) d d' s (t, closed, same) =
      rw same (refl, refl, refl, refl, closed)
  after_shutdown-Stops (raised e) d d' s (t, closed, same) =
      rw same (started_again (set_link t (request_stop d)) s, refl, refl, closed)

  -- A stop of a started validator ends its polling and closes its transport, also if the shut-down of
  -- the protocol raises. If it returns, the validator is stopped and disabled and accepts nothing. If
  -- it raises, the validator still counts as started, so that a later start returns and does nothing:
  -- no polling begins and the transport stays closed.
  pub stop_adapter-Stops : (d : Adapter T) → d.started ≡ true → Stops d (stop_adapter link d)
  unfolding stop_adapter ◌>>=◌ update
  stop_adapter-Stops d s =
      after_shutdown-Stops (safe_shutdown link (request_stop d)).0 d
        (safe_shutdown link (request_stop d)).1 s
        (safe_shutdown-closes link closing (request_stop d))
