-- ===== src/Simulators/Faults.antt =====
-- simulators/faults.py: faults that a simulated device is told to have. A dict from codes to plans
-- is keyed by the codes' numbers. Of a plan's details, the delay in milliseconds and the paid
-- counts are read; messages are left out.
pub mod Hits
use flower_vending_system.Prelude.{
  ℕ, suc, Bool, true, false, Option, none, some, List, [], ◌∷◌, ◌++◌, ◌==◌, if◌then◌else◌,
}
use flower_vending_system.Prelude.Int.{ℤ, pos, negsuc, ◌-ℤ◌}
use flower_vending_system.Prelude.Dict.{Dict, lookup, insert, erase}
use flower_vending_system.Domain.Reserve.{Plan}
use flower_vending_system.Devices.Contracts.{FaultCode, fault_number}

pub record FaultPlan : Type 0 where
  pub code : FaultCode
  pub remaining_hits : ℤ
  pub critical : Bool
  pub delay : ℕ
  pub paid_counts : Plan

-- `remaining_hits == 0`
abbrev pub exhausted : ℤ → Bool
exhausted (pos n) = n == 0
exhausted (negsuc _) = false

-- `FaultInjector._plans`
abbrev pub Injector : Type 0
Injector = Dict (List FaultPlan)

abbrev plans_of : Option (List FaultPlan) → List FaultPlan
plans_of none = []
plans_of (some ps) = ps

-- `add`
unfoldable pub add_plan : FaultPlan → Injector → Injector
add_plan p i =
    insert (fault_number p.code) (plans_of (lookup (fault_number p.code) i) ++ (p ∷ [])) i

-- `clear`
unfoldable pub clear_plans : Option FaultCode → Injector → Injector
clear_plans none i = []
clear_plans (some code) i = erase (fault_number code) i

-- `has`
abbrev has_plans : List FaultPlan → Bool
has_plans [] = false
has_plans (_ ∷ _) = true

unfoldable pub has_fault_plan : FaultCode → Injector → Bool
has_fault_plan code i = has_plans (plans_of (lookup (fault_number code) i))

-- The plan that has struck once more, which `consume` returns.
abbrev struck : FaultPlan → FaultPlan
struck p = record p { remaining_hits = p.remaining_hits -ℤ pos 1 }

-- What is left of the plans of a code, in the dict.
abbrev put_back : ℕ → List FaultPlan → Injector → Injector
put_back k [] i = erase k i
put_back k (p ∷ ps) i = insert k (p ∷ ps) i

abbrev after_hit : FaultPlan → List FaultPlan → List FaultPlan
after_hit p ps = if exhausted p.remaining_hits then ps else p ∷ ps

abbrev consume_first : ℕ → List FaultPlan → Injector → Option FaultPlan × Injector
consume_first k [] i = (none, i)
consume_first k (p ∷ ps) i =
    if exhausted p.remaining_hits
    then (none, i)
    else (some (struck p), put_back k (after_hit (struck p) ps) i)

-- `consume`
unfoldable pub consume_fault : FaultCode → Injector → Option FaultPlan × Injector
consume_fault code i = consume_first (fault_number code) (plans_of (lookup (fault_number code) i)) i
