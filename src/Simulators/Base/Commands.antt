-- ===== src/Simulators/Base/Commands.antt =====
-- Commands of the simulated devices that return nothing (simulators/devices/base.py): what they do
-- to the device's own state, whatever the policy.
use flower_vending_system.Prelude.{ℕ, true, false, Option, none, some, ◌≡◌, ◌∙◌}
use flower_vending_system.Devices.Contracts.{FaultCode, CommandPolicy, is_retryable}
use flower_vending_system.Devices.Errors.{Outcome, returned, raised}
use flower_vending_system.Devices.Runner.{
  Operation, Command, cache_key, cached, wants_retry, run_command,
}
use flower_vending_system.Devices.Runner.Parts.{value_of, Ends, run_command-Ends}
use flower_vending_system.Devices.Step.{◌>>◌}
use flower_vending_system.Devices.Step.Leads.{Post, Leads, Leads-bind, Leads-map}
use flower_vending_system.Simulators.Base.{
  Mock, MockDevice, consume_policy_fault, consume_own_fault, policy_codes,
}
use flower_vending_system.Simulators.Base.Keeps.{
  LeavesBody-consume_policy_fault, LeavesBody-consume_own_fault,
}

module _ {B : Type 0} (before done : B) where
  -- Done if the call returned; otherwise nothing has happened.
  abbrev pub DoneOrNot : Option (Unit {0}) → Mock B → Type 0
  DoneOrNot none s = s.body ≡ before
  DoneOrNot (some _) s = s.body ≡ done

  -- The operation does its work in one attempt or raises with nothing done.
  abbrev pub Works : Operation (Mock B) (Unit {0}) → MockDevice B (Unit {0}) → Type 0
  Works m d = Leads m (λ _ d'. d'.parts.body ≡ done) (λ _ d'. d'.parts.body ≡ before) d

  -- The beginning that most operations share.
  pub Works-faults :
      (timeout : Option ℕ) (code : FaultCode) (rest : Operation (Mock B) (Unit {0}))
      → ((d : MockDevice B (Unit {0})) → d.parts.body ≡ before → Works rest d)
      → (d : MockDevice B (Unit {0})) → d.parts.body ≡ before
      → Works (consume_policy_fault timeout policy_codes >> (consume_own_fault code >> rest)) d
  Works-faults timeout code rest k d e =
      Leads-bind (consume_policy_fault timeout policy_codes) _ d (
        Leads-map (consume_policy_fault timeout policy_codes) d
          (λ a d' h. Leads-bind (consume_own_fault code) _ d' (
            Leads-map (consume_own_fault code) d' (λ b d'' g. k d'' (g ∙ (h ∙ e)))
              (λ x d'' g. g ∙ (h ∙ e)) (LeavesBody-consume_own_fault code d')))
          (λ x d' h. h ∙ e) (LeavesBody-consume_policy_fault timeout policy_codes d))

  Post-DoneOrNot :
      (o : Outcome (Unit {0}) × MockDevice B (Unit {0}))
      → Post (λ _ d'. d'.parts.body ≡ done) (λ _ d'. d'.parts.body ≡ before) o
      → Ends DoneOrNot o
  Post-DoneOrNot (returned a, d) h = h
  Post-DoneOrNot (raised e, d) h = h

  retried-not_done :
      (p : CommandPolicy) (c : Command (Unit {0})) (o : Outcome (Unit {0})) (s : Mock B)
      → ((v : Unit {0}) → c.result_fault v ≡ none)
      → wants_retry p c o ≡ true
      → DoneOrNot (value_of o) s
      → s.body ≡ before
  unfolding wants_retry
  retried-not_done p c (returned v) s quiet w h = absurd_retry (c.result_fault v) (quiet v) w
    where
      absurd_retry :
          (f : Option FaultCode)
          → f ≡ none
          → elim f [ none ↦ false | some g ↦ is_retryable p g ] ≡ true
          → s.body ≡ before
      absurd_retry none e w = cc
      absurd_retry (some g) e w = cc
  retried-not_done p c (raised e) s quiet w h = h

  -- A command of such an operation is done once if it returns, and not at all if it raises.
  pub run_command-DoneOrNot :
      (p : CommandPolicy) (c : Command (Unit {0})) (op : Operation (Mock B) (Unit {0}))
      → c.raises_on_ambiguous ≡ false
      → ((v : Unit {0}) → c.result_fault v ≡ none)
      → ((d : MockDevice B (Unit {0})) → d.parts.body ≡ before → Works op d)
      → (d : MockDevice B (Unit {0})) → cached (cache_key c.name c.idempotency_key) d.cache ≡ none
      → d.parts.body ≡ before
      → Ends DoneOrNot (run_command p c op d)
  run_command-DoneOrNot p c op raises quiet works d fresh e =
      run_command-Ends DoneOrNot p c raises (λ s. s.body ≡ before) op
        (λ d' i. Post-DoneOrNot (op d') (works d' i).post)
        (λ d' i w.
          retried-not_done p c (op d').0 (op d').1.parts quiet w
            (Post-DoneOrNot (op d') (works d' i).post))
        d fresh e
