-- ===== src/Money/Assessment.antt =====
-- payments/change_manager.py: `assess_sale`.
use flower_vending_system.Prelude.{ℕ, zero, suc, Bool, true, false, List, [], if◌then◌else◌}
use flower_vending_system.Prelude.Result.{Result, ok, err, zero_division, runtime_error}
use flower_vending_system.Domain.Reserve.{Plan}
use flower_vending_system.Money.Inventory.{MoneyInventory}
use flower_vending_system.Money.Planning.{Search, found, exhausted, raised, plan_change}
use flower_vending_system.Money.WorstCase.{
  WorstCase, at_most, cannot_pay, zero_denomination, out_of_fuel, worst_case_change,
}

pub record SaleChangeAssessment : Type 0 where
  pub sale_supported : Bool
  pub exact_change_only : Bool
  pub reserved_change_minor_units : ℕ
  pub plan : Plan

abbrev unsupported : SaleChangeAssessment
unsupported = record {
  sale_supported = false;
  exact_change_only = true;
  reserved_change_minor_units = 0;
  plan = [];
}

abbrev supported : ℕ → Plan → SaleChangeAssessment
supported worst plan = record {
  sale_supported = true;
  exact_change_only = false;
  reserved_change_minor_units = worst;
  plan = plan;
}

abbrev with_plan : ℕ → Search → Result SaleChangeAssessment
with_plan worst (found p) = ok (supported worst p)
with_plan worst exhausted = ok unsupported
with_plan worst raised = err zero_division

-- `out_of_fuel` does not come up: Money/WorstCase/Total.
abbrev assess_worst : WorstCase → MoneyInventory → Result SaleChangeAssessment
assess_worst (at_most zero) m = ok (supported 0 [])
assess_worst (at_most (suc k)) m = with_plan (suc k) (plan_change (suc k) m)
assess_worst cannot_pay m = ok unsupported
assess_worst zero_denomination m = err zero_division
assess_worst out_of_fuel m = err runtime_error

unfoldable pub assess_sale : List ℕ → ℕ → MoneyInventory → Result SaleChangeAssessment
assess_sale bills price m =
    if m.drift_detected then ok unsupported else assess_worst (worst_case_change bills price m) m
