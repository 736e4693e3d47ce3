-- ===== src/Simulators/Base/Keeps.antt =====
-- What the shared steps of simulators/devices/base.py leave alone: the device's own state.
use flower_vending_system.Prelude.{ℕ, Option, none, some, List, [], ◌∷◌, ◌≡◌, refl, ◌∙◌}
use flower_vending_system.Devices.Contracts.{FaultCode}
use flower_vending_system.Devices.Errors.{Outcome, returned, raised}
use flower_vending_system.Devices.Step.{Step}
use flower_vending_system.Devices.Step.Leads.{Post, Leads, Leads-give, Leads-bind, Leads-map}
use flower_vending_system.Simulators.Faults.{FaultPlan}
use flower_vending_system.Simulators.Base.{
  Mock, MockDevice, consume, struck_or, consume_policy_fault, break_down, consume_own_fault,
}

module _ {B R : Type 0} where
  -- The step ends, in either way, with the device's own state as it was.
  abbrev pub LeavesBody : {A : Type 0} → Step (Mock B) R A → MockDevice B R → Type 0
  LeavesBody m d =
      Leads m (λ _ d'. d'.parts.body ≡ d.parts.body) (λ _ d'. d'.parts.body ≡ d.parts.body) d

  pub LeavesBody-consume : (code : FaultCode) (d : MockDevice B R) → LeavesBody (consume code) d
  unfolding consume
  LeavesBody-consume code d = record { post = refl }

  same_Post :
      {A : Type 0} (o : Outcome A) (d : MockDevice B R) (b : B)
      → d.parts.body ≡ b
      → Post (λ (_ : A) (d' : MockDevice B R). d'.parts.body ≡ b) (λ _ d'. d'.parts.body ≡ b) (o, d)
  same_Post (returned a) d b e = e
  same_Post (raised x) d b e = e

  struck_or-same :
      (timeout : Option ℕ) (next : Step (Mock B) R (Option FaultPlan)) (o : Option FaultPlan)
      (b : B) (d : MockDevice B R)
      → d.parts.body ≡ b
      → LeavesBody next d
      → Leads (struck_or timeout next o) (λ _ d'. d'.parts.body ≡ b) (λ _ d'. d'.parts.body ≡ b) d
  struck_or-same timeout next none b d e k = Leads-map next d (λ a d' h. h ∙ e) (λ x d' h. h ∙ e) k
  struck_or-same timeout next (some p) b d e k = record { post = same_Post _ d b e }

  pub LeavesBody-consume_policy_fault :
      (timeout : Option ℕ) (codes : List FaultCode) (d : MockDevice B R)
      → LeavesBody (consume_policy_fault timeout codes) d
  unfolding consume_policy_fault
  LeavesBody-consume_policy_fault timeout [] d = Leads-give _ d refl
  LeavesBody-consume_policy_fault timeout (code ∷ codes) d =
      let next : (d' : MockDevice B R) → LeavesBody (consume_policy_fault timeout codes) d' =
        LeavesBody-consume_policy_fault timeout codes in
      Leads-bind (consume code) _ d (
        Leads-map (consume code) d
          (λ o d' e.
            struck_or-same timeout (consume_policy_fault timeout codes) o d.parts.body d' e
              (next d'))
          (λ x d' h. h) (LeavesBody-consume code d))

  break_down-same :
      (o : Option FaultPlan) (b : B) (d : MockDevice B R)
      → d.parts.body ≡ b
      → Leads (break_down o) (λ _ d'. d'.parts.body ≡ b) (λ _ d'. d'.parts.body ≡ b) d
  break_down-same none b d e = record { post = e }
  break_down-same (some p) b d e = record { post = e }

  pub LeavesBody-consume_own_fault :
      (code : FaultCode) (d : MockDevice B R) → LeavesBody (consume_own_fault code) d
  unfolding consume_own_fault
  LeavesBody-consume_own_fault code d = Leads-bind (consume code) _ d (
      Leads-map (consume code) d (λ o d' e. break_down-same o d.parts.body d' e) (λ x d' h. h)
        (LeavesBody-consume code d))
