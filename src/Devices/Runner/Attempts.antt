-- ===== src/Devices/Runner/Attempts.antt =====
-- Which attempt of DeviceCommandRunner.run (devices/command_policy.py) decides how a command ends.
use flower_vending_system.Prelude.{
  ℕ, zero, suc, ◌≤◌, ◌<◌, Bool, true, false, Option, none, ◌≡◌, refl, ap, ◌⊎◌, inl, inr, arith, ltb,
  Bool-cases,
}
use flower_vending_system.Devices.Contracts.{CommandPolicy, OperationalState}
use flower_vending_system.Devices.Errors.{CommandError, command, raised}
use flower_vending_system.Devices.Runner.{
  Device, Operation, Command, cache_key, cached, heartbeat, wants_retry, should_retry, conclude,
  run_attempts, run_command, activate_terminal,
}

module _ {S R : Type 0} where
  -- The device before attempt `k`, counted from zero: every attempt before it has failed and was
  -- followed by the heartbeat of a retry.
  unfoldable pub before_attempt : Operation S R → ℕ → Device S R → Device S R
  before_attempt op zero d = d
  before_attempt op (suc k) d = before_attempt op k (heartbeat OperationalState.degraded (op d).1)

  -- Attempt `k` decides: the ones before it were to be repeated, and it is the last that the
  -- policy has or is not to be repeated itself.
  pub record Decides (p : CommandPolicy) (c : Command R) (op : Operation S R) (left k : ℕ)
      (d : Device S R) : Type 0 where
    pub within : k ≤ left
    pub repeated : (j : ℕ) → j < k → wants_retry p c (op (before_attempt op j d)).0 ≡ true
    pub last : (k ≡ left) ⊎ (wants_retry p c (op (before_attempt op k d)).0 ≡ false)

  Decides-suc :
      {p : CommandPolicy} {c : Command R} {op : Operation S R} {left k : ℕ} {d : Device S R}
      → wants_retry p c (op d).0 ≡ true
      → Decides p c op left k (heartbeat OperationalState.degraded (op d).1)
      → Decides p c op (suc left) (suc k) d
  unfolding before_attempt
  Decides-suc {p} {c} {op} {left} {k} {d} e h = record {
    within = omega (arith, h.within);
    repeated = earlier;
    last = elim h.last [ inl e ↦ inl (ap suc e) | inr n ↦ inr n ];
  }
    where
      earlier : (j : ℕ) → j < suc k → wants_retry p c (op (before_attempt op j d)).0 ≡ true
      earlier zero lt = e
      earlier (suc j) lt = h.repeated j (omega arith)

  run_attempts-Decides :
      (p : CommandPolicy) (c : Command R) (retried : Bool) (op : Operation S R) (left : ℕ)
      (d : Device S R)
      → (k : ℕ) × Decides p c op left k d
        × (run_attempts p c retried op left d
            ≡ conclude p c retried (op (before_attempt op k d)).0 (op (before_attempt op k d)).1)
  unfolding run_attempts before_attempt
  run_attempts-Decides p c retried op zero d =
      (0, record { within = omega arith; repeated = λ j h. elim h [ ]; last = inl refl }, refl)
  run_attempts-Decides p c retried op (suc left) d = elim (Bool-cases (wants_retry p c (op d).0)) [
    | inl e ↦
        let (k, h, same) =
          run_attempts-Decides p c retried op left (heartbeat OperationalState.degraded (op d).1) in
        (suc k, Decides-suc e h, rw e same)
    | inr e ↦
        (0, record { within = omega arith; repeated = λ j h. elim h [ ]; last = inr e }, rw e refl)
  ]

  pub run_command-fresh :
      (p : CommandPolicy) (c : Command R) (op : Operation S R) (d : Device S R)
      → cached (cache_key c.name c.idempotency_key) d.cache ≡ none
      → run_command p c op d ≡ run_attempts p c (ltb 0 p.retry_count) op p.retry_count d
  unfolding run_command run_attempts
  run_command-fresh p c op d e = rw (e, run_command) refl

  -- A command that is not a replay runs its operation at least once and at most once more than the
  -- policy has retries: each attempt but the last ended in a way to be retried, and the last decides
  -- how the command ends.
  pub run_command-Decides :
      (p : CommandPolicy) (c : Command R) (op : Operation S R) (d : Device S R)
      → cached (cache_key c.name c.idempotency_key) d.cache ≡ none
      → (k : ℕ) × Decides p c op p.retry_count k d
        × (run_command p c op d
            ≡ conclude p c
                (ltb 0 p.retry_count)
                (op (before_attempt op k d)).0
                (op (before_attempt op k d)).1)
  run_command-Decides p c op d e =
      rw (run_command-fresh p c op d e)
        (run_attempts-Decides p c (ltb 0 p.retry_count) op p.retry_count d)

  run_attempts-once :
      (p : CommandPolicy) (c : Command R) (retried : Bool) (op : Operation S R) (left : ℕ)
      (d : Device S R)
      → wants_retry p c (op d).0 ≡ false
      → run_attempts p c retried op left d ≡ conclude p c retried (op d).0 (op d).1
  unfolding run_attempts
  run_attempts-once p c retried op zero d e = refl
  run_attempts-once p c retried op (suc left) d e = rw e refl

  -- An exception that forbids a retry, as the one for an ambiguous physical result does, is raised
  -- after one attempt, whatever the policy: the operation is not run again, nothing is remembered,
  -- and a fault is recorded: the exception's own, or COMMAND_RETRY_EXHAUSTED if the policy has retries.
  pub run_command-not_repeated :
      (p : CommandPolicy) (c : Command R) (op : Operation S R) (d : Device S R) (e : CommandError)
      → cached (cache_key c.name c.idempotency_key) d.cache ≡ none
      → (op d).0 ≡ raised (command e)
      → e.retryable ≡ Option.some false
      → run_command p c op d
        ≡ (raised (command e), activate_terminal e (ltb 0 p.retry_count) (op d).1)
  run_command-not_repeated p c op d e fresh ends forbids =
      rw
        (
          run_command-fresh p c op d fresh,
          run_attempts-once p c (ltb 0 p.retry_count) op p.retry_count d retry,
          ends,
        )
        closing
    where
      retry : wants_retry p c (op d).0 ≡ false
      retry = rw ends (unfold wants_retry should_retry in rw forbids refl)

      closing :
          conclude p c (ltb 0 p.retry_count) (raised (command e)) (op d).1
          ≡ (raised (command e), activate_terminal e (ltb 0 p.retry_count) (op d).1)
      closing = unfold conclude in refl
