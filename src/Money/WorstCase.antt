-- ===== src/Money/WorstCase.antt =====
-- payments/change_manager.py: `_calculate_worst_case_change`, a worklist over the amounts that
-- a customer can have inserted while the price is not reached. The set of reachable amounts is
-- a list, and the stack of pending ones has its top first. The `while` loop takes fuel;
-- Money/WorstCase/Total shows that the fuel given is enough.
pub mod Chart
pub mod Safe
pub mod Total
use flower_vending_system.Prelude.{
  ℕ, zero, suc, ◌+◌, ◌-◌, max, Bool, true, false, List, [], ◌∷◌, ltb, ◌==◌, if◌then◌else◌, contains,
  ◌≡◌, refl, ◌⊎◌, inl, inr,
}
use flower_vending_system.Money.Inventory.{MoneyInventory}
use flower_vending_system.Money.Planning.{Search, found, exhausted, raised, plan_change}

pub record Worklist : Type 0 where
  pub reachable : List ℕ
  pub pending : List ℕ
  pub worst : ℕ

-- How a round of the loop ends: it goes on, `return None`, or ZeroDivisionError.
pub data Scan : Type 0 where
  continue : Worklist → Scan
  unpayable : Scan
  scan_raised : Scan

abbrev pub push : ℕ → Worklist → Worklist
push a w =
    if contains a w.reachable
    then w
    else record w { reachable = a ∷ w.reachable; pending = a ∷ w.pending }

abbrev after_plan : Search → ℕ → Worklist → Scan
after_plan (found p) due w = continue (record w { worst = max w.worst due })
after_plan exhausted due w = unpayable
after_plan raised due w = scan_raised

-- One pass of the inner loop's body: the bill `d` on top of `accepted`.
unfoldable pub add_bill : MoneyInventory → ℕ → ℕ → ℕ → Worklist → Scan
add_bill m price accepted d w =
    if ltb (accepted + d) price
    then continue (push (accepted + d) w)
    else after_plan (plan_change (accepted + d - price) m) (accepted + d - price) w

-- `for denomination in denominations`
unfoldable pub scan_bills : MoneyInventory → ℕ → ℕ → List ℕ → Worklist → Scan
scan_bills m price accepted [] w = continue w
scan_bills m price accepted (d ∷ ds) w = elim (add_bill m price accepted d w) [
  | continue w' ↦ scan_bills m price accepted ds w'
  | unpayable ↦ unpayable
  | scan_raised ↦ scan_raised
]

pub data WorstCase : Type 0 where
  at_most : ℕ → WorstCase
  cannot_pay : WorstCase
  zero_denomination : WorstCase
  out_of_fuel : WorstCase

-- `while pending`
unfoldable pub explore : MoneyInventory → ℕ → List ℕ → ℕ → List ℕ → List ℕ → ℕ → WorstCase
explore m price ds zero reachable pending worst = out_of_fuel
explore m price ds (suc fuel) reachable [] worst = at_most worst
explore m price ds (suc fuel) reachable (a ∷ pending) worst =
    elim (scan_bills m price a ds
      (record { reachable = reachable; pending = pending; worst = worst })) [
        | continue w ↦ explore m price ds fuel w.reachable w.pending w.worst
        | unpayable ↦ cannot_pay
        | scan_raised ↦ zero_denomination
      ]

-- `if denomination > 0`
unfoldable pub positive_bills : List ℕ → List ℕ
positive_bills [] = []
positive_bills (zero ∷ ds) = positive_bills ds
positive_bills (suc d ∷ ds) = suc d ∷ positive_bills ds

abbrev pub is_empty : List ℕ → Bool
is_empty [] = true
is_empty (_ ∷ _) = false

unfoldable pub worst_case_change : List ℕ → ℕ → MoneyInventory → WorstCase
worst_case_change bills price m =
    if m.exact_change_only
    then at_most 0
    else if is_empty (positive_bills bills)
    then at_most 0
    else explore m price (positive_bills bills) (suc (suc price)) (0 ∷ []) (0 ∷ []) 0

pub Scan-cases :
    (s : Scan) → ((w : Worklist) × (s ≡ continue w)) ⊎ ((s ≡ unpayable) ⊎ (s ≡ scan_raised))
Scan-cases (continue w) = inl (w, refl)
Scan-cases unpayable = inr (inl refl)
Scan-cases scan_raised = inr (inr refl)
