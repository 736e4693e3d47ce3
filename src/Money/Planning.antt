-- ===== src/Money/Planning.antt =====
-- payments/change_manager.py: `plan_change`, the exhaustive search for a payout. The target is
-- a natural number: `plan_change` refuses a negative one, and its callers pass none.
pub mod Sound
pub mod Complete
use flower_vending_system.Prelude.{
  ℕ, zero, suc, ◌-◌, ◌*◌, ◌/◌, min, Bool, List, [], ◌∷◌, ltb, ◌==◌, if◌then◌else◌, ◌≡◌, refl, ◌⊎◌,
  inl, inr,
}
use flower_vending_system.Prelude.Dict.{Dict, lookup_or, insert}
use flower_vending_system.Domain.Reserve.{Plan}
use flower_vending_system.Money.Inventory.{MoneyInventory, available_counts}

-- A plan, Python's `None`, or the ZeroDivisionError that a denomination of 0 raises.
pub data Search : Type 0 where
  found : Plan → Search
  exhausted : Search
  raised : Search

-- `if count > 0: plan[denomination] = count`
unfoldable pub add_count : ℕ → ℕ → Plan → Plan
add_count d c p = if ltb 0 c then insert d c p else p

-- `for count in range(max_count, -1, -1)` over the search for the later denominations.
unfoldable pub try_counts : (ℕ → Search) → ℕ → ℕ → ℕ → Search
try_counts next d remaining zero = elim (next (remaining - d * 0)) [
  | found p ↦ found (add_count d 0 p)
  | exhausted ↦ exhausted
  | raised ↦ raised
]
try_counts next d remaining (suc c) = elim (next (remaining - d * suc c)) [
  | found p ↦ found (add_count d (suc c) p)
  | exhausted ↦ try_counts next d remaining c
  | raised ↦ raised
]

-- `backtrack`, with the denominations from `index` on.
unfoldable pub backtrack : Dict ℕ → List ℕ → ℕ → Search
backtrack available [] remaining = if remaining == 0 then found [] else exhausted
backtrack available (d ∷ ds) remaining =
    let later = backtrack available ds in
    if remaining == 0
    then found []
    else if d == 0
    then raised
    else try_counts later d remaining (min (lookup_or d 0 available) (remaining / d))

-- `sorted(..., reverse=True)`
unfoldable pub insert_desc : ℕ → List ℕ → List ℕ
insert_desc d [] = d ∷ []
insert_desc d (e ∷ es) = if ltb d e then e ∷ insert_desc d es else d ∷ e ∷ es

-- The denominations of which some pieces are free, from the largest down.
unfoldable pub denominations : Dict ℕ → List ℕ
denominations [] = []
denominations ((d, c) ∷ available) =
    if ltb 0 c then insert_desc d (denominations available) else denominations available

unfoldable pub plan_from : Dict ℕ → ℕ → Search
plan_from available target =
    if target == 0 then found [] else backtrack available (denominations available) target

unfoldable pub plan_change : ℕ → MoneyInventory → Search
plan_change target m = plan_from (available_counts m) target

pub Search-cases : (s : Search) → ((p : Plan) × (s ≡ found p)) ⊎ ((s ≡ exhausted) ⊎ (s ≡ raised))
Search-cases (found p) = inl (p, refl)
Search-cases exhausted = inr (inl refl)
Search-cases raised = inr (inr refl)
