-- ===== src/Money/WorstCase/Safe.antt =====
-- If the worst case was found, the machine can pay the change of every way in which a customer
-- can insert bills: payments/change_manager.py, `_calculate_worst_case_change`.
use flower_vending_system.Prelude.{
  ℕ, suc, ◌+◌, ◌-◌, ◌≤◌, ◌<◌, Bool, true, false, List, [], ◌∷◌, contains, ◌≡◌, refl, inl,
  if◌then◌else◌,
}
use flower_vending_system.Money.Inventory.{MoneyInventory}
use flower_vending_system.Money.Planning.{plan_change}
use flower_vending_system.Money.Planning.Complete.{IsFound}
use flower_vending_system.Money.WorstCase.{
  WorstCase, at_most, explore, positive_bills, is_empty, worst_case_change,
}
use flower_vending_system.Money.WorstCase.Chart.{
  Has, IsInvariant, IsProcessed, IsChart, explore-IsChart,
}

-- The amounts that a customer can have inserted while the price is not reached.
pub data Inserted (price : ℕ) (ds : List ℕ) : ℕ → Type 0 where
  nothing : Inserted price ds 0
  bill :
      {a b : ℕ} (d : ℕ)
      → Inserted price ds a
      → contains d ds ≡ true
      → b ≡ a + d
      → b < price
      → Inserted price ds b

module _ (m : MoneyInventory) (price : ℕ) (ds : List ℕ) where
  -- With this worst case, every overshoot can be paid and is bounded by it.
  abbrev pub IsSafe : WorstCase → Type 0
  IsSafe (at_most k) =
      (a d : ℕ)
      → Inserted price ds a
      → Has d ds
      → price ≤ a + d
      → IsFound (plan_change (a + d - price) m) × (a + d - price ≤ k)
  IsSafe _ = Unit {0}

  known_of :
      (reachable : List ℕ) (k : ℕ)
      → Has 0 reachable
      → ((x : ℕ) → Has x reachable → IsProcessed m price ds reachable k x)
      → {x : ℕ} → Inserted price ds x
      → Has x reachable
  known_of reachable k start charted nothing = start
  known_of reachable k start charted (bill {a = a} d i h e less) =
      rw e ((charted a (known_of reachable k start charted i) d h).known (rw e at less))

  IsChart-IsSafe : (c : WorstCase) → IsChart m price ds c → IsSafe c
  IsChart-IsSafe (at_most k) (reachable, start, charted) = λ a d i h l.
      let c = charted a (known_of reachable k start charted i) d h in (c.payable l, c.bounded l)
  IsChart-IsSafe WorstCase.cannot_pay c = tt
  IsChart-IsSafe WorstCase.zero_denomination c = tt
  IsChart-IsSafe WorstCase.out_of_fuel c = tt

start-IsInvariant :
    (m : MoneyInventory) (price : ℕ) (ds : List ℕ)
    → IsInvariant m price ds (record { reachable = 0 ∷ []; pending = 0 ∷ []; worst = 0 })
start-IsInvariant m price ds x h = inl h

explored-IsSafe :
    (m : MoneyInventory) (price : ℕ) (exact : Bool) (ds : List ℕ)
    → exact ≡ false
    → IsSafe m price ds (
        if exact
        then at_most 0
        else if is_empty ds
        then at_most 0
        else explore m price ds (suc (suc price)) (0 ∷ []) (0 ∷ []) 0)
explored-IsSafe m price true ds h = cc
explored-IsSafe m price false [] h = λ a d i k l. cc
explored-IsSafe m price false (d ∷ ds) h = IsChart-IsSafe m price (d ∷ ds) _ (
    explore-IsChart m price (d ∷ ds) (suc (suc price)) (0 ∷ []) (0 ∷ []) 0
      (start-IsInvariant m price (d ∷ ds)) refl)

worst_case-IsSafe :
    (bills : List ℕ) (price : ℕ) (m : MoneyInventory)
    → m.exact_change_only ≡ false
    → IsSafe m price (positive_bills bills) (worst_case_change bills price m)
unfolding worst_case_change
worst_case-IsSafe bills price m exact =
    explored-IsSafe m price m.exact_change_only (positive_bills bills) exact

-- The worst case that `assess_sale` reserves: unless the machine is in exact-change mode, the
-- change of every sequence of accepted bills that ends at or above the price can be paid out of
-- the free pieces and is at most the worst case.
pub worst_case_safe :
    (bills : List ℕ) (price : ℕ) (m : MoneyInventory) {k : ℕ} (a d : ℕ)
    → m.exact_change_only ≡ false
    → worst_case_change bills price m ≡ at_most k
    → Inserted price (positive_bills bills) a
    → Has d (positive_bills bills)
    → price ≤ a + d
    → IsFound (plan_change (a + d - price) m) × (a + d - price ≤ k)
worst_case_safe bills price m a d exact e i h l =
    let safe : IsSafe m price (positive_bills bills) (worst_case_change bills price m) =
      worst_case-IsSafe bills price m exact in
    (rw e at safe) a d i h l
