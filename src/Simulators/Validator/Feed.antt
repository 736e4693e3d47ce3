-- ===== src/Simulators/Validator/Feed.antt =====
-- simulators/devices/mock_bill_validator.py: which money the events of an inserted bill report.
use flower_vending_system.Prelude.{
  ℕ, ◌+◌, Bool, true, false, not, ◌&&◌, Option, none, some, List, [], ◌∷◌, ◌++◌, append_assoc, ◌≡◌,
  refl, ap, ◌∙◌, arith, contains, is_some, if◌then◌else◌, Bool-cases, inl, inr, ◌==◌,
}
use flower_vending_system.Prelude.Int.{ℤ, pos}
use flower_vending_system.App.World.{ValidatorEventType}
use flower_vending_system.Devices.Contracts.{FaultCode, MoneyValue, make_money_value}
use flower_vending_system.Devices.Errors.{Raised, Outcome, returned, raised}
use flower_vending_system.Devices.Step.{◌>>=◌, unless}
use flower_vending_system.Simulators.Faults.{FaultPlan, Injector, consume_fault}
use flower_vending_system.Simulators.Base.{consume, with_injector}
use flower_vending_system.Simulators.Validator.{
  ValidatorEvent, ValidatorDevice, ValidatorOperation, put_event, stack_bill, judge, after_jam,
  feed_bill, insert_bill, feed_value,
}

-- The money that an event reports as taken.
abbrev stacked_value : ValidatorEventType → Option MoneyValue → ℕ
stacked_value ValidatorEventType.bill_stacked (some bill) = bill.minor_units
stacked_value _ _ = 0

-- The money that the waiting events report as taken.
unfoldable pub stacked_units : List ValidatorEvent → ℕ
stacked_units [] = 0
stacked_units (e ∷ es) = stacked_value e.event_type e.bill_value + stacked_units es

-- Whether the device takes the bill: no jam and no rejection is planned for it, and it is one of
-- the supported ones.
abbrev pub takes : ValidatorDevice → ℕ → Bool
takes d n =
    let (jam, i) = consume_fault FaultCode.bill_jam d.parts.injector in
    not (is_some jam)
    && (not (is_some (consume_fault FaultCode.bill_rejected i).0)
        && contains n d.parts.body.supported_bill_values)

-- The bill is seen.
abbrev pub detected : MoneyValue → ValidatorEvent
detected bill = record { event_type = ValidatorEventType.bill_detected; bill_value = some bill }

-- The call returns; the new events say first that the bill is seen, and report `n` as taken; the
-- validator accepts afterwards, or does not.
abbrev pub Reports :
    MoneyValue → ℕ → Bool → ValidatorDevice → Outcome (Unit {0}) × ValidatorDevice → Type 0
Reports bill n accepting d (raised e, d') = ⊥
Reports bill n accepting d (returned u, d') =
    (rest : List ValidatorEvent) × (d'.parts.body.events
      ≡ d.parts.body.events ++ (detected bill ∷ rest))
    × (stacked_units rest ≡ n)
    × (d'.parts.body.accepting ≡ accepting)

-- The device once the bill is seen and the injector was asked.
abbrev seen : MoneyValue → Injector → ValidatorDevice → ValidatorDevice
seen bill i d = with_injector i (put_event ValidatorEventType.bill_detected (some bill) d)

abbrev event : ValidatorEventType → MoneyValue → ValidatorEvent
event type bill = record { event_type = type; bill_value = some bill }

stack_bill-Reports :
    (bill : MoneyValue) (i : Injector) (d : ValidatorDevice)
    → d.parts.body.accepting ≡ true
    → Reports bill bill.minor_units true d (stack_bill bill (seen bill i d))
unfolding stack_bill stacked_units
stack_bill-Reports bill i d h = elim (Bool-cases d.parts.body.escrow_supported) [
  | inl e ↦ rw e (
    event ValidatorEventType.bill_validated bill
        ∷ event ValidatorEventType.escrow_available bill
        ∷ event ValidatorEventType.bill_stacked bill
        ∷ [],
    simp append_assoc refl,
    omega arith,
    h,
  )
  | inr e ↦ rw e (
    event ValidatorEventType.bill_validated bill ∷ event ValidatorEventType.bill_stacked bill ∷ [],
    simp append_assoc refl,
    omega arith,
    h,
  )
]

judge-Reports :
    (bill : MoneyValue) (rejected : Option FaultPlan) (i : Injector) (d : ValidatorDevice)
    → d.parts.body.accepting ≡ true
    → Reports bill
        (if not (is_some rejected) && contains bill.minor_units d.parts.body.supported_bill_values
          then bill.minor_units
          else 0)
        true
        d
        (judge bill rejected (seen bill i d))
unfolding stacked_units
judge-Reports bill (some plan) i d h = (
  event ValidatorEventType.bill_rejected bill ∷ [],
  append_assoc d.parts.body.events (detected bill ∷ [])
      (event ValidatorEventType.bill_rejected bill ∷ []),
  refl,
  h,
)
judge-Reports bill none i d h =
    elim (Bool-cases (contains bill.minor_units d.parts.body.supported_bill_values)) [
      | inl e ↦ rw e (stack_bill-Reports bill i d h)
      | inr e ↦ rw e (
        event ValidatorEventType.bill_rejected bill ∷ [],
        append_assoc d.parts.body.events (detected bill ∷ [])
            (event ValidatorEventType.bill_rejected bill ∷ []),
        refl,
        h,
      )
    ]

after_jam-Reports :
    (bill : MoneyValue) (jam : Option FaultPlan) (i : Injector) (d : ValidatorDevice)
    → d.parts.body.accepting ≡ true
    → Reports bill
        (if not (is_some jam)
            && (not (is_some (consume_fault FaultCode.bill_rejected i).0)
                && contains bill.minor_units d.parts.body.supported_bill_values)
          then bill.minor_units
          else 0)
        (not (is_some jam))
        d
        (after_jam bill jam (seen bill i d))
unfolding ◌>>=◌ consume stacked_units
after_jam-Reports bill (some plan) i d h = (
  event ValidatorEventType.validator_fault bill ∷ [],
  append_assoc d.parts.body.events (detected bill ∷ [])
      (event ValidatorEventType.validator_fault bill ∷ []),
  refl,
  refl,
)
after_jam-Reports bill none i d h =
    judge-Reports bill (consume_fault FaultCode.bill_rejected i).0
      (consume_fault FaultCode.bill_rejected i).1 d h

feed_bill-Reports :
    (bill : MoneyValue) (d : ValidatorDevice)
    → d.parts.body.accepting ≡ true
    → Reports bill
        (if takes d bill.minor_units then bill.minor_units else 0)
        (not (is_some (consume_fault FaultCode.bill_jam d.parts.injector).0))
        d
        (feed_bill bill d)
unfolding feed_bill
feed_bill-Reports bill d h =
    after_jam-Reports bill (consume_fault FaultCode.bill_jam d.parts.injector).0
      (consume_fault FaultCode.bill_jam d.parts.injector).1 d h

unless_no :
    (c : Bool) (e : Raised) (m : ValidatorOperation) (d : ValidatorDevice)
    → c ≡ false
    → unless c e m d ≡ m d
unfolding unless
unless_no true e m d h = cc
unless_no false e m d h = refl

feed_value_lem :
    (n currency : ℕ) (d : ValidatorDevice)
    → (currency == 0) ≡ false
    → feed_value (make_money_value (pos n) currency) d
      ≡ feed_bill (record { minor_units = n; currency = currency }) d
feed_value_lem n currency d c = rw c refl

insert_bill-feed_bill :
    (n currency : ℕ) (d : ValidatorDevice)
    → d.started ≡ true
    → d.parts.body.accepting ≡ true
    → (currency == 0) ≡ false
    → insert_bill (pos n) currency d ≡ feed_bill (record { minor_units = n; currency = currency }) d
unfolding insert_bill
insert_bill-feed_bill n currency d s a c =
    unless_no (not d.started) _ _ d (ap not s)
    ∙ (unless_no (not d.parts.body.accepting) _ _ d (ap not a) ∙ feed_value_lem n currency d c)

-- At a validator that runs and accepts, an inserted bill is seen: the events say so first, and then
-- report its value as taken exactly if no jam and no rejection strikes and it is one of the
-- supported ones, and no other money; a jam ends the acceptance, and nothing else does.
pub insert_bill-Reports :
    (n currency : ℕ) (d : ValidatorDevice)
    → d.started ≡ true
    → d.parts.body.accepting ≡ true
    → (currency == 0) ≡ false
    → Reports
        (record { minor_units = n; currency = currency })
        (if takes d n then n else 0)
        (not (is_some (consume_fault FaultCode.bill_jam d.parts.injector).0))
        d
        (insert_bill (pos n) currency d)
insert_bill-Reports n currency d s a c =
    rw (insert_bill-feed_bill n currency d s a c)
      (feed_bill-Reports (record { minor_units = n; currency = currency }) d a)

-- A validator that is stopped or does not accept refuses every bill, and nothing changes.
pub insert_bill-refused :
    (amount : ℤ) (currency : ℕ) (d : ValidatorDevice)
    → (d.started && d.parts.body.accepting) ≡ false
    → (insert_bill amount currency d).1 ≡ d
unfolding insert_bill unless
insert_bill-refused amount currency d h = elim (Bool-cases d.started) [
  | inl s ↦ rw (s, rw s at h) refl
  | inr s ↦ rw s refl
]
