-- ===== src/Devices/Runner/Keeps.antt =====
-- What every command of DeviceCommandRunner.run (devices/command_policy.py) keeps.
use flower_vending_system.Prelude.{
  ℕ, zero, suc, Bool, true, false, ◌&&◌, Option, none, some, ◌≡◌, refl, inl, inr, ltb, Bool-cases,
}
use flower_vending_system.Devices.Contracts.{CommandPolicy, FaultCode, OperationalState}
use flower_vending_system.Devices.Errors.{
  CommandError, command_error, timeout_error, ambiguous_error, command, timed_out, adapter,
  other_error, Outcome, returned, raised,
}
use flower_vending_system.Devices.Runner.{
  Device, Operation, Command, cache_key, cached, remember, heartbeat, activate_fault, wants_retry,
  is_unclear, review_result, conclude, clear_result, run_attempts, run_command, activate_terminal,
}

-- What the runner itself writes, in the run of command `c`, does not touch `I`.
pub record Neutral {S R : Type 0} (I : Device S R → Type 0) (c : Command R) : Type 0 where
  pub on_heartbeat : (s : OperationalState) (d : Device S R) → I d → I (heartbeat s d)
  pub on_fault : (code : FaultCode) (b : Bool) (d : Device S R) → I d → I (activate_fault code b d)
  pub on_remember :
      (v : R) (d : Device S R) → I d → I (remember (cache_key c.name c.idempotency_key) v d)

module _ {S R : Type 0} {I : Device S R → Type 0} (p : CommandPolicy) (c : Command R)
    (neutral : Neutral I c) where
  clear_result-keeps :
      (v : R) (f : Option FaultCode) (d : Device S R) → I d → I (clear_result c v f d).1
  clear_result-keeps v none d i = neutral.on_remember v _ (neutral.on_heartbeat _ d i)
  clear_result-keeps v (some f) d i = neutral.on_remember v _ (neutral.on_fault f true d i)

  terminal-keeps :
      (e : CommandError) (retried : Bool) (d : Device S R) → I d → I (activate_terminal e retried d)
  unfolding activate_terminal
  terminal-keeps e retried d i = neutral.on_fault _ true d i

  review_result-keeps :
      (retried : Bool) (v : R) (d : Device S R) → I d → I (review_result c retried v d).1
  unfolding review_result
  review_result-keeps retried v d i =
      let reviewed = neutral.on_remember v _ (neutral.on_fault _ true d i) in
      elim (Bool-cases c.raises_on_ambiguous) [
        | inl e ↦ rw e (terminal-keeps ambiguous_error retried _ reviewed)
        | inr e ↦ rw e reviewed
      ]

  conclude-keeps :
      (retried : Bool) (o : Outcome R) (d : Device S R) → I d → I (conclude p c retried o d).1
  unfolding conclude
  conclude-keeps retried (returned v) d i =
      elim (Bool-cases (is_unclear c v && p.reviews_ambiguous)) [
        | inl e ↦ rw e (review_result-keeps retried v d i)
        | inr e ↦ rw e (clear_result-keeps v (c.result_fault v) d i)
      ]
  conclude-keeps retried (raised (command e)) d i = terminal-keeps e retried d i
  conclude-keeps retried (raised timed_out) d i = terminal-keeps timeout_error retried d i
  conclude-keeps retried (raised (adapter a)) d i =
      terminal-keeps (command_error FaultCode.device_unavailable none) false d i
  conclude-keeps retried (raised other_error) d i = i

  module _ (op : Operation S R) (keeps : (d : Device S R) → I d → I (op d).1) where
    run_attempts-keeps :
        (retried : Bool) (left : ℕ) (d : Device S R)
        → I d
        → I (run_attempts p c retried op left d).1
    unfolding run_attempts
    run_attempts-keeps retried zero d i = conclude-keeps retried _ _ (keeps d i)
    run_attempts-keeps retried (suc left) d i = elim (Bool-cases (wants_retry p c (op d).0)) [
      | inl e ↦ rw e (run_attempts-keeps retried left _ (neutral.on_heartbeat _ _ (keeps d i)))
      | inr e ↦ rw e (conclude-keeps retried _ _ (keeps d i))
    ]

    known-keeps :
        (o : Option R) (d : Device S R)
        → cached (cache_key c.name c.idempotency_key) d.cache ≡ o
        → I d
        → I (run_command p c op d).1
    unfolding run_command
    known-keeps (some v) d e i =
        rw (e, run_command) (neutral.on_heartbeat OperationalState.ready d i)
    known-keeps none d e i =
        rw (e, run_command) (run_attempts-keeps (ltb 0 p.retry_count) p.retry_count d i)

    pub run_command-keeps : (d : Device S R) → I d → I (run_command p c op d).1
    run_command-keeps d i =
        known-keeps (cached (cache_key c.name c.idempotency_key) d.cache) d refl i
