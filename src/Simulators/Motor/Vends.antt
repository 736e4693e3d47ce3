-- ===== src/Simulators/Motor/Vends.antt =====
-- simulators/devices/mock_motor_controller.py: how often a vend turns the motor.
use flower_vending_system.Prelude.{ℕ, Option, none, some, List, [], ◌∷◌, ◌++◌, ◌≡◌, refl, ap}
use flower_vending_system.Devices.Contracts.{FaultCode, CommandPolicy}
use flower_vending_system.Devices.Runner.{cache_key, cached}
use flower_vending_system.Devices.Runner.Parts.{Ends}
use flower_vending_system.Simulators.Base.{MockDevice}
use flower_vending_system.Simulators.Base.Commands.{
  DoneOrNot, Works, Works-faults, run_command-DoneOrNot,
}
use flower_vending_system.Simulators.Motor.{vend_once, vend_slot, vend_command, record_vend}

-- The command that a vend runs.
abbrev pub vend_key : ℕ → Option ℕ → ℕ
vend_key fallback none = fallback
vend_key fallback (some cid) = cid

vend_once-Works :
    (p : CommandPolicy) (slot : ℕ) (before : List ℕ) (d : MockDevice (List ℕ) (Unit {0}))
    → d.parts.body ≡ before
    → Works before (before ++ (slot ∷ [])) (vend_once p slot) d
unfolding vend_once
vend_once-Works p slot before =
    Works-faults before (before ++ (slot ∷ [])) p.timeout FaultCode.motor_fault (record_vend slot)
      λ d e. record { post = ap (λ h. h ++ (slot ∷ [])) e }

-- A vend whose key is new to the runner turns the motor of the slot exactly once if it returns,
-- however many attempts the policy makes, and not at all if it raises.
pub vend_slot-once :
    (p : CommandPolicy) (fallback slot : ℕ) (cid : Option ℕ) (d : MockDevice (List ℕ) (Unit {0}))
    → cached (cache_key 1 (some (vend_key fallback cid))) d.cache ≡ none
    → Ends (DoneOrNot d.parts.body (d.parts.body ++ (slot ∷ []))) (vend_slot p fallback slot cid d)
unfolding vend_slot
vend_slot-once p fallback slot none d fresh =
    run_command-DoneOrNot _ _ p (vend_command fallback none) (vend_once p slot) refl (λ v. refl)
      (vend_once-Works p slot d.parts.body) d fresh refl
vend_slot-once p fallback slot (some cid) d fresh =
    run_command-DoneOrNot _ _ p (vend_command fallback (some cid)) (vend_once p slot) refl
      (λ v. refl) (vend_once-Works p slot d.parts.body) d fresh refl
