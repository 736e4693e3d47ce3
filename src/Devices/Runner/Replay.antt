-- ===== src/Devices/Runner/Replay.antt =====
-- Replays of DeviceCommandRunner.run (devices/command_policy.py).
use flower_vending_system.Prelude.{
  List, [], ◌∷◌, ap, ◌∙◌, false, ℕ, zero, suc, Bool, true, ◌&&◌, Option, none, some, ◌≡◌, refl,
  arith, ltb, Bool-cases, inl, inr, Option-cases,
}
use flower_vending_system.Devices.Contracts.{CommandPolicy, OperationalState, FaultCode}
use flower_vending_system.Devices.Errors.{
  command, timed_out, adapter, other_error, Outcome, returned, raised,
}
use flower_vending_system.Devices.Runner.{
  Cache, Device, Operation, Command, CacheKey, same_cache_key, find_cached, cache_key, cached,
  remember, heartbeat, wants_retry, is_unclear, conclude, review_result, clear_result, run_attempts,
  run_command,
}
use flower_vending_system.Devices.Runner.Attempts.{run_command-fresh}
use flower_vending_system.Devices.Runner.Keeps.{Neutral, run_command-keeps}

same_cache_key_refl : (k : CacheKey) → same_cache_key k k ≡ true
same_cache_key_refl k = ground arith

module _ {R : Type 0} where
  -- A key that is found and one that is not are different.
  found_differs :
      (k j : CacheKey) (cache : Cache R) {v : R}
      → find_cached k cache ≡ some v
      → find_cached j cache ≡ none
      → same_cache_key k j ≡ false
  found_differs k j [] h n = cc
  found_differs k j ((i, u) ∷ cache) h n = ground (arith, found_differs k j cache)

-- A command, with its policy and its operation.
pub record Call (S R : Type 0) : Type 0 where
  pub policy : CommandPolicy
  pub asked : Command R
  pub operation : Operation S R

module _ {S R : Type 0} where
  abbrev Finds : Option CacheKey → R → Device S R → Type 0
  Finds none v d = Unit {0}
  Finds (some k) v d = find_cached k d.cache ≡ some v

  -- What was returned is remembered under the key.
  abbrev Remembered : Option CacheKey → Outcome R × Device S R → Type 0
  Remembered k (returned v, d) = Finds k v d
  Remembered k (raised _, d) = Unit {0}

  remember-Finds : (k : Option CacheKey) (v : R) (d : Device S R) → Finds k v (remember k v d)
  remember-Finds none v d = tt
  remember-Finds (some k) v d = rw (same_cache_key_refl k) refl

  review_result-Remembered :
      (c : Command R) (retried : Bool) (v : R) (d : Device S R)
      → Remembered (cache_key c.name c.idempotency_key) (review_result c retried v d)
  unfolding review_result
  review_result-Remembered c retried v d = elim (Bool-cases c.raises_on_ambiguous) [
    | inl e ↦ rw e tt
    | inr e ↦ rw e (remember-Finds (cache_key c.name c.idempotency_key) v _)
  ]

  clear_result-Remembered :
      (c : Command R) (v : R) (f : Option FaultCode) (d : Device S R)
      → Remembered (cache_key c.name c.idempotency_key) (clear_result c v f d)
  clear_result-Remembered c v none d = remember-Finds (cache_key c.name c.idempotency_key) v _
  clear_result-Remembered c v (some f) d = remember-Finds (cache_key c.name c.idempotency_key) v _

  conclude-Remembered :
      (p : CommandPolicy) (c : Command R) (retried : Bool) (o : Outcome R) (d : Device S R)
      → Remembered (cache_key c.name c.idempotency_key) (conclude p c retried o d)
  unfolding conclude
  conclude-Remembered p c retried (returned v) d =
      elim (Bool-cases (is_unclear c v && p.reviews_ambiguous)) [
        | inl e ↦ rw e (review_result-Remembered c retried v d)
        | inr e ↦ rw e (clear_result-Remembered c v (c.result_fault v) d)
      ]
  conclude-Remembered p c retried (raised (command e)) d = tt
  conclude-Remembered p c retried (raised timed_out) d = tt
  conclude-Remembered p c retried (raised (adapter a)) d = tt
  conclude-Remembered p c retried (raised other_error) d = tt

  run_attempts-Remembered :
      (p : CommandPolicy) (c : Command R) (retried : Bool) (op : Operation S R) (left : ℕ)
      (d : Device S R)
      → Remembered (cache_key c.name c.idempotency_key) (run_attempts p c retried op left d)
  unfolding run_attempts
  run_attempts-Remembered p c retried op zero d = conclude-Remembered p c retried _ _
  run_attempts-Remembered p c retried op (suc left) d =
      elim (Bool-cases (wants_retry p c (op d).0)) [
        | inl e ↦ rw e (run_attempts-Remembered p c retried op left _)
        | inr e ↦ rw e (conclude-Remembered p c retried _ _)
      ]

  pub run_command-cached :
      (p : CommandPolicy) (c : Command R) (op : Operation S R) (d : Device S R) {v : R}
      → cached (cache_key c.name c.idempotency_key) d.cache ≡ some v
      → run_command p c op d ≡ (returned v, heartbeat OperationalState.ready d)
  unfolding run_command
  run_command-cached p c op d e = rw (e, run_command) refl

  cached-Finds :
      (k : Option CacheKey) (d : Device S R) {v : R}
      → cached k d.cache ≡ some v
      → Finds k v (heartbeat OperationalState.ready d)
  cached-Finds none d e = tt
  cached-Finds (some k) d e = e

  run_command-Remembered :
      (p : CommandPolicy) (c : Command R) (op : Operation S R) (d : Device S R)
      → Remembered (cache_key c.name c.idempotency_key) (run_command p c op d)
  run_command-Remembered p c op d =
      elim (Option-cases (cached (cache_key c.name c.idempotency_key) d.cache)) [
        | inl e ↦
            rw (run_command-fresh p c op d e)
              (run_attempts-Remembered p c (ltb 0 p.retry_count) op p.retry_count d)
        | inr (v, e) ↦
            rw (run_command-cached p c op d e)
              (cached-Finds (cache_key c.name c.idempotency_key) d e)
      ]

  keep_Finds :
      (k : CacheKey) (v u : R) (o : Option CacheKey) (cache : Cache R) (d : Device S R)
      → find_cached k cache ≡ some v
      → cached o cache ≡ none
      → find_cached k d.cache ≡ some v
      → find_cached k (remember o u d).cache ≡ some v
  keep_Finds k v u none cache d before fresh h = h
  keep_Finds k v u (some j) cache d before fresh h = rw (found_differs k j cache before fresh) h

  Finds-Neutral :
      (k : CacheKey) (v : R) (c : Command R) (cache : Cache R)
      → find_cached k cache ≡ some v
      → cached (cache_key c.name c.idempotency_key) cache ≡ none
      → Neutral (Finds (some k) v) c
  Finds-Neutral k v c cache before fresh = record {
    on_heartbeat = λ s d h. h;
    on_fault = λ code b d h. h;
    on_remember =
        λ u d h. keep_Finds k v u (cache_key c.name c.idempotency_key) cache d before fresh h;
  }

  -- The operations leave the runner's cache alone.
  abbrev pub KeepCache : List (Call S R) → Type 0
  KeepCache [] = Unit {0}
  KeepCache (a ∷ calls) = ((d : Device S R) → (a.operation d).1.cache ≡ d.cache) × KeepCache calls

  -- One command after the other.
  unfoldable pub run_calls : List (Call S R) → Device S R → Device S R
  unfolding run_command
  run_calls [] d = d
  run_calls (a ∷ calls) d = run_calls calls (run_command a.policy a.asked a.operation d).1

  run_command-Finds :
      (k : CacheKey) (v : R) (p : CommandPolicy) (c : Command R) (op : Operation S R)
      (d : Device S R)
      → ((e : Device S R) → (op e).1.cache ≡ e.cache)
      → Finds (some k) v d
      → Finds (some k) v (run_command p c op d).1
  run_command-Finds k v p c op d same h =
      elim (Option-cases (cached (cache_key c.name c.idempotency_key) d.cache)) [
        | inl e ↦
            run_command-keeps p c (Finds-Neutral k v c d.cache h e) op
              (λ x f. ap (find_cached k) (same x) ∙ f) d h
        | inr (u, e) ↦ rw (run_command-cached p c op d e) h
      ]

  run_calls-Finds :
      (k : CacheKey) (v : R) (calls : List (Call S R)) (d : Device S R)
      → KeepCache calls
      → Finds (some k) v d
      → Finds (some k) v (run_calls calls d)
  unfolding run_calls
  run_calls-Finds k v [] d keep h = h
  run_calls-Finds k v (a ∷ calls) d keep h =
      run_calls-Finds k v calls _ keep.1
        (run_command-Finds k v a.policy a.asked a.operation d keep.0 h)

  -- Once a command under an idempotency key has returned, each later command of its name under that
  -- key, behind any other commands whose operations leave the cache alone, returns the same result,
  -- whatever its own operation, and does nothing to the device but a heartbeat that says READY.
  pub run_command-replays :
      (p q : CommandPolicy) (c b : Command R) (op other : Operation S R) (d d' : Device S R)
      (key : ℕ) (v : R) (calls : List (Call S R))
      → KeepCache calls
      → c.idempotency_key ≡ some key
      → b.idempotency_key ≡ some key
      → b.name ≡ c.name
      → run_command p c op d ≡ (returned v, d')
      → run_command q b other (run_calls calls d')
        ≡ (returned v, heartbeat OperationalState.ready (run_calls calls d'))
  run_command-replays p q c b op other d d' key v calls keep ck bk name ends =
      run_command-cached q b other (run_calls calls d') found
    where
      kept : Finds (cache_key c.name c.idempotency_key) v d'
      kept = rw ends at (run_command-Remembered p c op d)

      still : Finds (some (record { command_name = c.name; key = key })) v (run_calls calls d')
      still = run_calls-Finds _ v calls d' keep (rw ck at kept)

      found : cached (cache_key b.name b.idempotency_key) (run_calls calls d').cache ≡ some v
      found = rw (bk, name) still
