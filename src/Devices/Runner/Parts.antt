-- ===== src/Devices/Runner/Parts.antt =====
-- What DeviceCommandRunner.run (devices/command_policy.py) itself leaves alone: the device's parts
-- change by the operation only.
use flower_vending_system.Prelude.{
  ℕ, zero, suc, Bool, true, false, ◌&&◌, Option, none, some, ◌≡◌, inl, inr, ltb, Bool-cases,
}
use flower_vending_system.Devices.Contracts.{CommandPolicy, FaultCode}
use flower_vending_system.Devices.Errors.{
  command, timed_out, adapter, other_error, Outcome, returned, raised,
}
use flower_vending_system.Devices.Runner.{
  Device, Operation, Command, CacheKey, cache_key, cached, remember, wants_retry, is_unclear,
  conclude, review_result, clear_result, run_attempts, run_command, activate_terminal,
}
use flower_vending_system.Devices.Runner.Attempts.{run_command-fresh}

module _ {R : Type 0} where
  -- The value of a call that returned.
  abbrev pub value_of : Outcome R → Option R
  value_of (returned v) = some v
  value_of (raised _) = none

module _ {S R : Type 0} (Q : Option R → S → Type 0) where
  -- `Q` of the value that a call returned, if it did, and of the device's parts after it.
  abbrev pub Ends : Outcome R × Device S R → Type 0
  Ends o = Q (value_of o.0) o.1.parts

  remember-Ends :
      (k : Option CacheKey) (v : R) (d : Device S R)
      → Q (some v) d.parts
      → Q (some v) (remember k v d).parts
  remember-Ends none v d q = q
  remember-Ends (some k) v d q = q

  module _ (p : CommandPolicy) (c : Command R) (quiet : c.raises_on_ambiguous ≡ false) where
    review_result-Ends :
        (retried : Bool) (v : R) (d : Device S R)
        → Q (some v) d.parts
        → Ends (review_result c retried v d)
    unfolding review_result
    review_result-Ends retried v d q =
        rw quiet (remember-Ends (cache_key c.name c.idempotency_key) v _ q)

    clear_result-Ends :
        (v : R) (f : Option FaultCode) (d : Device S R)
        → Q (some v) d.parts
        → Ends (clear_result c v f d)
    clear_result-Ends v none d q = remember-Ends (cache_key c.name c.idempotency_key) v _ q
    clear_result-Ends v (some f) d q = remember-Ends (cache_key c.name c.idempotency_key) v _ q

    conclude-Ends :
        (retried : Bool) (o : Outcome R) (d : Device S R)
        → Q (value_of o) d.parts
        → Ends (conclude p c retried o d)
    unfolding conclude activate_terminal
    conclude-Ends retried (returned v) d q =
        elim (Bool-cases (is_unclear c v && p.reviews_ambiguous)) [
          | inl e ↦ rw e (review_result-Ends retried v d q)
          | inr e ↦ rw e (clear_result-Ends v (c.result_fault v) d q)
        ]
    conclude-Ends retried (raised (command e)) d q = q
    conclude-Ends retried (raised timed_out) d q = q
    conclude-Ends retried (raised (adapter a)) d q = q
    conclude-Ends retried (raised other_error) d q = q

    -- The operation ends in `Q` from parts in `I`, and where it is to be retried, in `I` again.
    module _ (I : S → Type 0) (op : Operation S R)
        (ends : (d : Device S R) → I d.parts → Ends (op d))
        (again : (d : Device S R)
          → I d.parts
          → wants_retry p c (op d).0 ≡ true
          → I (op d).1.parts) where
      run_attempts-Ends :
          (retried : Bool) (left : ℕ) (d : Device S R)
          → I d.parts
          → Ends (run_attempts p c retried op left d)
      unfolding run_attempts
      run_attempts-Ends retried zero d i = conclude-Ends retried _ _ (ends d i)
      run_attempts-Ends retried (suc left) d i = elim (Bool-cases (wants_retry p c (op d).0)) [
        | inl e ↦ rw e (run_attempts-Ends retried left _ (again d i e))
        | inr e ↦ rw e (conclude-Ends retried _ _ (ends d i))
      ]

      pub run_command-Ends :
          (d : Device S R)
          → cached (cache_key c.name c.idempotency_key) d.cache ≡ none
          → I d.parts
          → Ends (run_command p c op d)
      run_command-Ends d fresh i =
          rw (run_command-fresh p c op d fresh)
            (run_attempts-Ends (ltb 0 p.retry_count) p.retry_count d i)
