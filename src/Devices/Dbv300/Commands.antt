-- ===== src/Devices/Dbv300/Commands.antt =====
-- devices/dbv300sd/adapter.py: a command neither starts nor stops the adapter, and is refused where
-- it is stopped.
use flower_vending_system.Prelude.{
  ℕ, Bool, true, false, not, Option, none, some, ◌≡◌, refl, ◌⊎◌, inl,
}
use flower_vending_system.App.World.{ValidatorEventType}
use flower_vending_system.Devices.Errors.{Raised, adapter, unsupported}
use flower_vending_system.Devices.Runner.{
  Command, CacheKey, cache_key, remember, plain_command, run_command,
}
use flower_vending_system.Devices.Runner.Keeps.{Neutral, run_command-keeps}
use flower_vending_system.Devices.Step.{unless, update}
use flower_vending_system.Devices.Step.Stays.{Stays, Stays-bind, Stays-update}
use flower_vending_system.Devices.Dbv300.Config.{ValidatorConfig}
use flower_vending_system.Devices.Dbv300.Link.{Call, Link}
use flower_vending_system.Devices.Dbv300.Adapter.{
  set_acceptance, plain_event, disable_command, Adapter, AdapterParts, AdapterOperation, call,
  enable_once, disable_once, enable_acceptance, disable_acceptance, emit_event, use_escrow,
}

module _ {T : Type 0} where
  abbrev pub IsStarted : Adapter T → Type 0
  IsStarted d = d.started ≡ true

  remember-IsStarted :
      (k : Option CacheKey) (v : Unit {0}) (d : Adapter T)
      → IsStarted d
      → IsStarted (remember k v d)
  remember-IsStarted none v d h = h
  remember-IsStarted (some k) v d h = h

  IsStarted-Neutral :
      (c : Command (Unit {0})) → Neutral {S = AdapterParts T} {R = Unit {0}} IsStarted c
  IsStarted-Neutral c = record {
    on_heartbeat = λ s d h. h;
    on_fault = λ code b d h. h;
    on_remember = λ v d h. remember-IsStarted (cache_key c.name c.idempotency_key) v d h;
  }

module _ {T : Type 0} (link : Link T) where
  abbrev pub IsIdle : Adapter T → Type 0
  IsIdle d =
      (d.parts.acceptance_enabled ≡ false)
      × (d.parts.polling ≡ false)
      × (link.is_open d.parts.link ≡ false)

  -- The validator has started, or it accepts nothing, polls nothing and keeps its transport closed.
  abbrev pub IsSafe : Adapter T → Type 0
  IsSafe d = IsStarted d ⊎ IsIdle d

  call-IsStarted : {A : Type 0} (m : Call T A) → Stays IsStarted (call m)
  unfolding call
  call-IsStarted m d s = s

  enable_once-IsStarted : Stays IsStarted (enable_once link)
  unfolding enable_once
  enable_once-IsStarted =
      Stays-bind (call (link.set_acceptance_enabled true)) _
        (call-IsStarted (link.set_acceptance_enabled true))
        (λ u. Stays-update (set_acceptance true) (λ d s. s))

  disable_once-IsStarted : Stays IsStarted (disable_once link)
  unfolding disable_once emit_event
  disable_once-IsStarted =
      Stays-bind (call (link.set_acceptance_enabled false)) _
        (call-IsStarted (link.set_acceptance_enabled false))
        (λ u.
          Stays-bind (update (set_acceptance false))
            (λ v. update (emit_event (plain_event ValidatorEventType.validator_disabled)))
            (Stays-update (set_acceptance false) (λ d s. s))
            (λ u.
              Stays-update (emit_event (plain_event ValidatorEventType.validator_disabled))
                (λ d s. s)))

  -- A guard on `started` before `m`.
  guarded-IsSafe :
      (b : Bool) (e : Raised) (m : AdapterOperation T) (d : Adapter T)
      → d.started ≡ b
      → (IsStarted d → IsStarted (m d).1)
      → IsSafe d
      → IsSafe (unless (not b) e m d).1
  unfolding unless
  guarded-IsSafe true e m d s k h = inl (k s)
  guarded-IsSafe false e m d s k h = h

  module _ (config : ValidatorConfig) where
    pub enable-IsSafe :
        (cid : Option ℕ) (d : Adapter T) → IsSafe d → IsSafe (enable_acceptance link config cid d).1
    unfolding enable_acceptance
    enable-IsSafe cid d h =
        guarded-IsSafe d.started _ _ d refl
          (run_command-keeps config.command_policy (plain_command 0 cid)
            (IsStarted-Neutral (plain_command 0 cid)) (enable_once link) enable_once-IsStarted d)
          h

    pub disable-IsSafe :
        (cid : Option ℕ) (d : Adapter T)
        → IsSafe d
        → IsSafe (disable_acceptance link config cid d).1
    unfolding disable_acceptance
    disable-IsSafe cid d h =
        guarded-IsSafe d.started _ _ d refl
          (run_command-keeps config.command_policy (disable_command cid)
            (IsStarted-Neutral (disable_command cid)) (disable_once link) disable_once-IsStarted d)
          h

    escrow-IsStarted :
        (b : Bool) (name : ℕ) (m : Call T (Unit {0})) (cid : Option ℕ) (d : Adapter T)
        → IsStarted d
        → IsStarted
            (unless
              (not b)
              (adapter unsupported)
              (run_command config.command_policy (plain_command name cid) (call m))
              d).1
    unfolding unless call
    escrow-IsStarted true name m cid d s =
        run_command-keeps config.command_policy (plain_command name cid)
          (IsStarted-Neutral (plain_command name cid)) (call m) (λ d s. s) d s
    escrow-IsStarted false name m cid d s = s

    pub use_escrow-IsSafe :
        (name : ℕ) (m : Call T (Unit {0})) (cid : Option ℕ) (d : Adapter T)
        → IsSafe d
        → IsSafe (use_escrow link config name m cid d).1
    unfolding use_escrow
    use_escrow-IsSafe name m cid d h =
        guarded-IsSafe d.started _ _ d refl (escrow-IsStarted link.escrow_supported name m cid d) h
