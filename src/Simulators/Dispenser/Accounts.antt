-- ===== src/Simulators/Dispenser/Accounts.antt =====
-- simulators/devices/mock_change_dispenser.py: what a payout takes out of the dispenser.
use flower_vending_system.Prelude.{
  ℕ, true, false, Option, none, some, [], ◌∷◌, ◌≡◌, refl, ◌∙◌, Bool-cases, inl, inr,
}
use flower_vending_system.Prelude.Int.{ℤ}
use flower_vending_system.Prelude.Dict.{Dict}
use flower_vending_system.Domain.Reserve.{Plan}
use flower_vending_system.Money.Inventory.{pay_counts}
use flower_vending_system.Devices.Contracts.{FaultCode, CommandPolicy, PayoutStatus, is_retryable}
use flower_vending_system.Devices.Errors.{Outcome, returned, raised}
use flower_vending_system.Devices.Runner.{cache_key, cached, wants_retry}
use flower_vending_system.Devices.Runner.Parts.{value_of, Ends, run_command-Ends}
use flower_vending_system.Devices.Step.Leads.{Post, Leads, Leads-bind, Leads-map}
use flower_vending_system.Simulators.Faults.{FaultPlan}
use flower_vending_system.Simulators.Base.{consume, consume_policy_fault}
use flower_vending_system.Simulators.Base.Keeps.{
  LeavesBody, LeavesBody-consume, LeavesBody-consume_policy_fault,
}
use flower_vending_system.Simulators.Dispenser.{
  DispenseRequest, DispenseResult, DispenserDevice, DispenserOperation, can_dispense,
  consume_inventory, partial_plan, pay_partly, unless_partial, unless_ambiguous, try_payout,
  unless_unavailable, dispense_once, dispense_command, dispense, dispenser_codes, result_fault_code,
}

-- What a result says has left the dispenser for certain.
abbrev pub certain_counts : PayoutStatus → Plan → Plan
certain_counts PayoutStatus.dispensed paid = paid
certain_counts PayoutStatus.partial paid = paid
certain_counts _ paid = []

-- The inventory after a call: what was certainly paid has been taken out of it, and after an
-- exception nothing has.
abbrev pub Accounts : Dict ℤ → Option DispenseResult → Dict ℤ → Type 0
Accounts before none after = after ≡ before
Accounts before (some r) after = after ≡ pay_counts (certain_counts r.status r.paid_counts) before

module _ (before : Dict ℤ) where
  abbrev Accounted : DispenserOperation → DispenserDevice → Type 0
  Accounted m d =
      Leads m (λ r d'. Accounts before (some r) d'.parts.body) (λ _ d'. d'.parts.body ≡ before) d

  Accounted-bind :
      {A : Type 0} (m : DispenserDevice → Outcome A × DispenserDevice) (f : A → DispenserOperation)
      (d : DispenserDevice)
      → d.parts.body ≡ before
      → LeavesBody m d
      → ((a : A) (d' : DispenserDevice) → d'.parts.body ≡ before → Accounted (f a) d')
      → Leads m (λ a. Accounted (f a)) (λ _ d'. d'.parts.body ≡ before) d
  Accounted-bind m f d e k next = Leads-map m d (λ a d' h. next a d' (h ∙ e)) (λ x d' h. h ∙ e) k

  pay_partly-Accounted :
      (r : DispenseRequest) (paid : Plan) (plan : FaultPlan) (d : DispenserDevice)
      → d.parts.body ≡ before
      → Accounted (pay_partly r paid plan) d
  unfolding consume_inventory
  pay_partly-Accounted r [] plan d e = record { post = e }
  pay_partly-Accounted r (x ∷ paid) plan d e = record { post = rw e refl }

  unless_partial-Accounted :
      (r : DispenseRequest) (o : Option FaultPlan) (d : DispenserDevice)
      → d.parts.body ≡ before
      → Accounted (unless_partial r o) d
  unfolding consume_inventory
  unless_partial-Accounted r none d e = record { post = rw e refl }
  unless_partial-Accounted r (some plan) d e =
      pay_partly-Accounted r (partial_plan r.counts) plan d e

  unless_ambiguous-Accounted :
      (r : DispenseRequest) (o : Option FaultPlan) (d : DispenserDevice)
      → d.parts.body ≡ before
      → Accounted (unless_ambiguous r o) d
  unfolding pay_counts
  unless_ambiguous-Accounted r none d e = Leads-bind (consume FaultCode.partial_payout) _ d (
      Accounted-bind _ (unless_partial r) d e (LeavesBody-consume FaultCode.partial_payout d)
        (unless_partial-Accounted r))
  unless_ambiguous-Accounted r (some plan) d e = record { post = e }

  try_payout-Accounted :
      (r : DispenseRequest) (d : DispenserDevice)
      → d.parts.body ≡ before
      → Accounted (try_payout r) d
  unfolding pay_counts
  try_payout-Accounted r d e = elim (Bool-cases (can_dispense r.counts d)) [
    | inl h ↦ record {
      post =
          rw h
            (Leads-bind (consume FaultCode.ambiguous_physical_result) _ d (
              Accounted-bind _ (unless_ambiguous r) d e
                (LeavesBody-consume FaultCode.ambiguous_physical_result d)
                (unless_ambiguous-Accounted r))).post;
    }
    | inr h ↦ record { post = rw h e }
  ]

  unless_unavailable-Accounted :
      (r : DispenseRequest) (o : Option FaultPlan) (d : DispenserDevice)
      → d.parts.body ≡ before
      → Accounted (unless_unavailable r o) d
  unfolding pay_counts
  unless_unavailable-Accounted r none d e = try_payout-Accounted r d e
  unless_unavailable-Accounted r (some plan) d e = record { post = e }

  dispense_once-Accounted :
      (p : CommandPolicy) (r : DispenseRequest) (d : DispenserDevice)
      → d.parts.body ≡ before
      → Accounted (dispense_once p r) d
  unfolding dispense_once
  dispense_once-Accounted p r d e =
      Leads-bind (consume_policy_fault p.timeout dispenser_codes) _ d (
        Accounted-bind _ _ d e (LeavesBody-consume_policy_fault p.timeout dispenser_codes d)
          λ a d' e'. Leads-bind (consume FaultCode.payout_unavailable) _ d' (
            Accounted-bind _ (unless_unavailable r) d' e'
              (LeavesBody-consume FaultCode.payout_unavailable d')
              (unless_unavailable-Accounted r)))

  Post-Ends :
      (o : Outcome DispenseResult × DispenserDevice)
      → Post (λ r d'. Accounts before (some r) d'.parts.body) (λ _ d'. d'.parts.body ≡ before) o
      → Accounts before (value_of o.0) o.1.parts.body
  Post-Ends (returned r, d) h = h
  Post-Ends (raised e, d) h = h

  -- A result with a fault code has paid nothing for certain.
  fault-unpaid :
      (p : CommandPolicy) (r : DispenseResult) (s : PayoutStatus) (after : Dict ℤ)
      → elim (result_fault_code r s) [ none ↦ false | some f ↦ is_retryable p f ] ≡ true
      → after ≡ pay_counts (certain_counts s r.paid_counts) before
      → after ≡ before
  unfolding pay_counts
  fault-unpaid p r PayoutStatus.dispensed after w h = cc
  fault-unpaid p r PayoutStatus.partial after w h = cc
  fault-unpaid p r PayoutStatus.failed after w h = h
  fault-unpaid p r PayoutStatus.ambiguous after w h = h

  retried-unpaid :
      (p : CommandPolicy) (key : ℕ) (o : Outcome DispenseResult) (after : Dict ℤ)
      → wants_retry p (dispense_command key) o ≡ true
      → Accounts before (value_of o) after
      → after ≡ before
  unfolding wants_retry
  retried-unpaid p key (returned r) after w h = fault-unpaid p r r.status after w h
  retried-unpaid p key (raised e) after w h = h

-- A payout under a key that is not in the cache takes out of the dispenser exactly what its result
-- says was paid, if the result is DISPENSED or PARTIAL, however often the policy repeats it; with any
-- other result, or an exception, the dispenser holds what it held.
pub dispense-Accounts :
    (p : CommandPolicy) (r : DispenseRequest) (d : DispenserDevice)
    → cached (cache_key 0 (some r.request_id)) d.cache ≡ none
    → Ends (λ v s. Accounts d.parts.body v s.body) (dispense p r d)
unfolding dispense
dispense-Accounts p r d fresh =
    run_command-Ends (λ v s. Accounts d.parts.body v s.body) p (dispense_command r.request_id) refl
      (λ s. s.body ≡ d.parts.body) (dispense_once p r)
      (λ d' i. Post-Ends d.parts.body _ (dispense_once-Accounted d.parts.body p r d' i).post)
      (λ d' i w.
        retried-unpaid d.parts.body p r.request_id _ _ w
          (Post-Ends d.parts.body _ (dispense_once-Accounted d.parts.body p r d' i).post))
      d fresh refl
