-- ===== src/Simulators/Dispenser.antt =====
-- simulators/devices/mock_change_dispenser.py. Of a result's details the fault code is read.
pub mod Accounts
pub mod Partial
use flower_vending_system.Prelude.{
  ℕ, ◌-◌, Bool, true, false, not, ◌&&◌, Option, none, some, List, [], ◌∷◌, ltb, if◌then◌else◌, map,
}
use flower_vending_system.Prelude.Int.{ℤ, pos, leb_ℤ}
use flower_vending_system.Prelude.Dict.{Dict, lookup_or, insert}
use flower_vending_system.Domain.Reserve.{Plan}
use flower_vending_system.Money.Inventory.{pay_counts}
use flower_vending_system.Money.Planning.{insert_desc}
use flower_vending_system.Devices.Contracts.{
  FaultCode, OperationalState, CommandPolicy, PayoutStatus, ReconciliationStatus,
}
use flower_vending_system.Devices.Errors.{adapter, adapter_error, Outcome, returned, raised}
use flower_vending_system.Devices.Runner.{
  Operation, Command, heartbeat, activate_fault, run_command,
}
use flower_vending_system.Devices.Step.{◌>>=◌, ◌>>◌}
use flower_vending_system.Simulators.Faults.{FaultPlan, has_fault_plan}
use flower_vending_system.Simulators.Base.{
  Mock, MockDevice, with_body, consume, consume_policy_fault,
}

pub record DispenseRequest : Type 0 where
  pub request_id : ℕ
  pub counts : Plan

pub record DispenseResult : Type 0 where
  pub request_id : ℕ
  pub status : PayoutStatus
  pub paid_counts : Plan
  pub fault_code : Option FaultCode

-- `_inventory`
abbrev pub DispenserParts : Type 0
DispenserParts = Mock (Dict ℤ)

abbrev pub DispenserDevice : Type 0
DispenserDevice = MockDevice (Dict ℤ) DispenseResult

abbrev pub DispenserOperation : Type 0
DispenserOperation = Operation DispenserParts DispenseResult

abbrev all_in : Dict ℤ → Plan → Bool
all_in inventory [] = true
all_in inventory ((d, c) ∷ p) = leb_ℤ (pos c) (lookup_or d (pos 0) inventory) && all_in inventory p

-- `can_dispense`
unfoldable pub can_dispense : Plan → DispenserDevice → Bool
can_dispense p d =
    not (has_fault_plan FaultCode.payout_unavailable d.parts.injector) && all_in d.parts.body p

-- `_consume_inventory`
unfoldable pub consume_inventory : Plan → DispenserDevice → DispenserDevice
consume_inventory p d = with_body (pay_counts p d.parts.body) d

abbrev pub keys : Plan → List ℕ
keys p = map (λ e. e.0) p

-- `sorted(requested.keys(), reverse=True)`
unfoldable pub sorted_desc : List ℕ → List ℕ
sorted_desc [] = []
sorted_desc (d ∷ ds) = insert_desc d (sorted_desc ds)

-- What is paid of `count` pieces while `skip` pieces are to be held back.
abbrev pub paid_count : ℕ → ℕ → ℕ
paid_count skip count = if ltb 0 skip then count - 1 else count

abbrev pub pay_if_any : ℕ → ℕ → Plan → Plan
pay_if_any d n paid = if ltb 0 n then insert d n paid else paid

-- The loop of `_partial_plan`; a count of zero pays nothing and holds nothing back.
unfoldable pub partial_from : ℕ → List ℕ → Plan → Plan → Plan
partial_from skip [] requested paid = paid
partial_from skip (d ∷ ds) requested paid =
    let count = lookup_or d 0 requested in
    let n = paid_count skip count in
    partial_from (skip - (count - n)) ds requested (pay_if_any d n paid)

unfoldable pub partial_plan : Plan → Plan
unfolding partial_from sorted_desc
partial_plan requested = partial_from 1 (sorted_desc (keys requested)) requested []

-- The results of `_dispense_once`
abbrev pub result_of : DispenseRequest → PayoutStatus → Plan → Option FaultCode → DispenseResult
result_of r s paid f = record {
  request_id = r.request_id;
  status = s;
  paid_counts = paid;
  fault_code = f;
}

abbrev pub pay_partly :
    DispenseRequest → Plan → FaultPlan → DispenserDevice → Outcome DispenseResult × DispenserDevice
pay_partly r [] plan d = (raised (adapter adapter_error), d)
pay_partly r (e ∷ paid) plan d = (
  returned (result_of r PayoutStatus.partial (e ∷ paid) (some plan.code)),
  activate_fault plan.code false (consume_inventory (e ∷ paid) d),
)

abbrev pub pay_in_full : DispenseRequest → DispenserOperation
pay_in_full r d = (
  returned (result_of r PayoutStatus.dispensed r.counts none),
  heartbeat OperationalState.ready (consume_inventory r.counts d),
)

abbrev pub unless_partial : DispenseRequest → Option FaultPlan → DispenserOperation
unless_partial r none = pay_in_full r
unless_partial r (some plan) = pay_partly r (partial_plan r.counts) plan

abbrev pub unless_ambiguous : DispenseRequest → Option FaultPlan → DispenserOperation
unless_ambiguous r none = consume FaultCode.partial_payout >>= unless_partial r
unless_ambiguous r (some plan) = λ d. (
  returned (
      result_of r PayoutStatus.ambiguous plan.paid_counts
        (some FaultCode.ambiguous_physical_result)),
  activate_fault plan.code true d,
)

abbrev pub try_payout : DispenseRequest → DispenserOperation
try_payout r d =
    (if can_dispense r.counts d
        then consume FaultCode.ambiguous_physical_result >>= unless_ambiguous r
        else (λ d. (returned (result_of r PayoutStatus.failed [] none), d)))
      d

abbrev pub unless_unavailable : DispenseRequest → Option FaultPlan → DispenserOperation
unless_unavailable r none = try_payout r
unless_unavailable r (some plan) = λ d. (
  returned (result_of r PayoutStatus.failed [] (some plan.code)),
  activate_fault plan.code true d,
)

abbrev pub dispenser_codes : List FaultCode
dispenser_codes = FaultCode.command_timeout ∷ FaultCode.transient_command_failure ∷ []

-- `_dispense_once`
unfoldable pub dispense_once : CommandPolicy → DispenseRequest → DispenserOperation
unfolding ◌>>=◌ consume consume_policy_fault can_dispense consume_inventory partial_plan
dispense_once p r = do
  consume_policy_fault p.timeout dispenser_codes
  unavailable ← consume FaultCode.payout_unavailable
  unless_unavailable r unavailable

-- `_result_fault_code`
abbrev pub result_fault_code : DispenseResult → PayoutStatus → Option FaultCode
result_fault_code r PayoutStatus.dispensed = none
result_fault_code r PayoutStatus.partial = none
result_fault_code r _ = r.fault_code

abbrev pub is_ambiguous_payout : PayoutStatus → Bool
is_ambiguous_payout PayoutStatus.ambiguous = true
is_ambiguous_payout _ = false

-- `_reconcile_dispense_result`
abbrev pub reconcile_payout : PayoutStatus → ReconciliationStatus
reconcile_payout PayoutStatus.ambiguous = ReconciliationStatus.ambiguous
reconcile_payout _ = ReconciliationStatus.confirmed

abbrev pub dispense_command : ℕ → Command DispenseResult
dispense_command key = record {
  name = 0;
  idempotency_key = some key;
  result_fault = λ r. result_fault_code r r.status;
  is_ambiguous = λ r. is_ambiguous_payout r.status;
  reconcile = λ r. reconcile_payout r.status;
  raises_on_ambiguous = false;
  success_state = OperationalState.ready;
}

unfoldable pub dispense : CommandPolicy → DispenseRequest → DispenserOperation
unfolding run_command dispense_once
dispense p r = run_command p (dispense_command r.request_id) (dispense_once p r)
