-- ===== src/Devices/Runner.antt =====
-- devices/command_policy.py: a device command under a policy of retries, replays and reviews.
-- The runner tells its device of faults and heartbeats, so both stand in one record.
pub mod Attempts
pub mod Keeps
pub mod Replay
pub mod Parts
use flower_vending_system.Prelude.{
  ℕ, zero, suc, Bool, true, false, not, ◌&&◌, ◌||◌, Option, none, some, List, [], ◌∷◌, ◌==◌, ltb,
  if◌then◌else◌,
}
use flower_vending_system.Devices.Contracts.{
  FaultCode, OperationalState, ReconciliationStatus, manual_review_required, DeviceHealth,
  CommandPolicy, is_retryable, has_fault,
}
use flower_vending_system.Devices.Errors.{
  CommandError, command_error, timeout_error, retry_exhausted_error, ambiguous_error, command,
  timed_out, adapter, other_error, Outcome, returned, raised,
}

-- `f"{device}:{command}:{key}"`: the device is the same for all keys of one runner.
pub record CacheKey : Type 0 where
  pub command_name : ℕ
  pub key : ℕ

abbrev pub same_cache_key : CacheKey → CacheKey → Bool
same_cache_key a b = a.command_name == b.command_name && a.key == b.key

abbrev pub Cache : Type 0 → Type 0
Cache R = List (CacheKey × R)

-- A device of parts `S` whose commands give a `R`.
pub record Device (S R : Type 0) : Type 0 where
  pub started : Bool
  pub health : DeviceHealth
  pub cache : Cache R
  pub parts : S

abbrev pub Operation : Type 0 → Type 0 → Type 0
Operation S R = Device S R → Outcome R × Device S R

-- The keyword arguments of `run` but the policy.
pub record Command (R : Type 0) : Type 0 where
  pub name : ℕ
  pub idempotency_key : Option ℕ
  pub result_fault : R → Option FaultCode
  pub is_ambiguous : R → Bool
  pub reconcile : R → ReconciliationStatus
  pub raises_on_ambiguous : Bool
  pub success_state : OperationalState

-- A command with no classifiers, which ends ready.
abbrev pub plain_command : {R : Type 0} → ℕ → Option ℕ → Command R
plain_command name key = record {
  name = name;
  idempotency_key = key;
  result_fault = λ _. none;
  is_ambiguous = λ _. false;
  reconcile = λ _. ReconciliationStatus.not_applicable;
  raises_on_ambiguous = false;
  success_state = OperationalState.ready;
}

abbrev pub cache_key : ℕ → Option ℕ → Option CacheKey
cache_key name none = none
cache_key name (some k) = some (record { command_name = name; key = k })

-- `_should_retry`
unfoldable pub should_retry : CommandPolicy → CommandError → Bool
unfolding is_retryable
should_retry p e = elim e.retryable [
  | some b ↦ b && not (has_fault e.fault_code p.non_retryable_faults)
  | none ↦ is_retryable p e.fault_code
]

-- `_activate_ambiguous_fault`
abbrev pub ambiguous_code : ReconciliationStatus → Option FaultCode → FaultCode
ambiguous_code ReconciliationStatus.mismatch f = FaultCode.physical_state_mismatch
ambiguous_code _ none = FaultCode.ambiguous_physical_result
ambiguous_code _ (some f) = f

module _ {R : Type 0} where
  abbrev pub find_cached : CacheKey → Cache R → Option R
  find_cached k [] = none
  find_cached k ((j, v) ∷ c) = if same_cache_key k j then some v else find_cached k c

  abbrev pub cached : Option CacheKey → Cache R → Option R
  cached none c = none
  cached (some k) c = find_cached k c

  -- Whether the attempt is made again, if one is left.
  unfoldable pub wants_retry : CommandPolicy → Command R → Outcome R → Bool
  unfolding is_retryable should_retry
  wants_retry p c (returned v) = elim (c.result_fault v) [
    | none ↦ false
    | some f ↦ is_retryable p f
  ]
  wants_retry p c (raised (command e)) = should_retry p e
  wants_retry p c (raised timed_out) = is_retryable p FaultCode.command_timeout
  wants_retry p c (raised (adapter _)) = false
  wants_retry p c (raised other_error) = false

  unfoldable pub is_unclear : Command R → R → Bool
  is_unclear c v = c.is_ambiguous v || manual_review_required (c.reconcile v)

module _ {S R : Type 0} where
  -- A new binding hides the old one of its key.
  abbrev pub remember : Option CacheKey → R → Device S R → Device S R
  remember none v d = d
  remember (some k) v d = record d { cache = (k, v) ∷ d.cache }

  -- `_activate_fault` of the device
  abbrev pub activate_fault : FaultCode → Bool → Device S R → Device S R
  activate_fault code critical d = record d {
    health = record {
      state = if critical then OperationalState.fault else OperationalState.degraded;
      faults = record { code = code; critical = critical } ∷ [];
    };
  }

  -- `_heartbeat` of the device
  abbrev pub heartbeat : OperationalState → Device S R → Device S R
  heartbeat s d = record d { health = record { state = s; faults = d.health.faults } }

  -- `_activate_terminal_exception`
  unfoldable pub activate_terminal : CommandError → Bool → Device S R → Device S R
  activate_terminal e retry_attempted d =
      activate_fault (if retry_attempted then retry_exhausted_error.fault_code else e.fault_code)
        true d

  -- The result that needs a review. The exception for it is raised inside the `try`: the handler of
  -- DeviceCommandError, which never retries it, records a fault of its own before it goes on.
  unfoldable pub review_result : Command R → Bool → R → Device S R → Outcome R × Device S R
  unfolding activate_terminal
  review_result c retried v d =
      let reviewed =
        remember (cache_key c.name c.idempotency_key) v
          (activate_fault (ambiguous_code (c.reconcile v) (c.result_fault v)) true d) in
      if c.raises_on_ambiguous
      then (raised (command ambiguous_error), activate_terminal ambiguous_error retried reviewed)
      else (returned v, reviewed)

  abbrev pub clear_result : Command R → R → Option FaultCode → Device S R → Outcome R × Device S R
  clear_result c v (some f) d =
      (returned v, remember (cache_key c.name c.idempotency_key) v (activate_fault f true d))
  clear_result c v none d =
      (returned v, remember (cache_key c.name c.idempotency_key) v (heartbeat c.success_state d))

  -- The body of the loop behind the retries.
  unfoldable pub conclude :
      CommandPolicy → Command R → Bool → Outcome R → Device S R → Outcome R × Device S R
  unfolding is_unclear activate_terminal review_result
  conclude p c retried (returned v) d =
      if is_unclear c v && p.reviews_ambiguous
      then review_result c retried v d
      else clear_result c v (c.result_fault v) d
  conclude p c retried (raised (command e)) d = (raised (command e), activate_terminal e retried d)
  conclude p c retried (raised timed_out) d =
      (raised (command timeout_error), activate_terminal timeout_error retried d)
  conclude p c retried (raised (adapter a)) d = (
    raised (adapter a),
    activate_terminal (command_error FaultCode.device_unavailable none) false d,
  )
  conclude p c retried (raised other_error) d = (raised other_error, d)

  -- The loop over the attempts, with the number of those left after this one.
  unfoldable pub run_attempts : CommandPolicy → Command R → Bool → Operation S R → ℕ → Operation S R
  unfolding conclude wants_retry
  run_attempts p c retried op zero d = conclude p c retried (op d).0 (op d).1
  run_attempts p c retried op (suc left) d =
      let again = run_attempts p c retried op left (heartbeat OperationalState.degraded (op d).1) in
      if wants_retry p c (op d).0 then again else conclude p c retried (op d).0 (op d).1

  -- `DeviceCommandRunner.run`
  unfoldable pub run_command : CommandPolicy → Command R → Operation S R → Operation S R
  unfolding run_attempts
  run_command p c op d = elim (cached (cache_key c.name c.idempotency_key) d.cache) [
    | some v ↦ (returned v, heartbeat OperationalState.ready d)
    | none ↦ run_attempts p c (ltb 0 p.retry_count) op p.retry_count d
  ]
