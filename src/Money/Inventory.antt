-- ===== src/Money/Inventory.antt =====
-- domain/entities/money_inventory.py. Accounting counts are Python integers, which `consume`
-- may take below zero; reserved counts never are negative. `physical_state_confidence` and
-- `last_reconciled_at`, which no rule reads, are left out.
use flower_vending_system.Prelude.{ℕ, ◌+◌, ◌-◌, Bool, true, not, ◌&&◌, [], ◌∷◌, leb}
use flower_vending_system.Prelude.Int.{ℤ, pos, pos_part, ◌-ℤ◌}
use flower_vending_system.Prelude.Dict.{Dict, lookup_or, insert}
use flower_vending_system.Prelude.Result.{Result, ok, raise_when, change_unavailable}
use flower_vending_system.Domain.Reserve.{Plan, ChangeReserve, active}

pub record MoneyInventory : Type 0 where
  pub currency : ℕ
  pub accounting : Dict ℤ
  pub reserved : Dict ℕ
  pub exact_change_only : Bool
  pub drift_detected : Bool

-- `max(0, count - reserved)`
abbrev pub free_count : ℤ → ℕ → ℕ
free_count count reserved = pos_part (count -ℤ pos reserved)

abbrev pub available_from : Dict ℕ → Dict ℤ → Dict ℕ
available_from r [] = []
available_from r ((d, count) ∷ acc) = (d, free_count count (lookup_or d 0 r)) ∷ available_from r acc

unfoldable pub available_counts : MoneyInventory → Dict ℕ
available_counts m = available_from m.reserved m.accounting

abbrev pub all_available : Dict ℕ → Plan → Bool
all_available available [] = true
all_available available ((d, c) ∷ p) = leb c (lookup_or d 0 available) && all_available available p

unfoldable pub can_reserve : Plan → MoneyInventory → Bool
can_reserve plan m = all_available (available_counts m) plan

-- The loops over a plan in `reserve`, `release` and `consume`.
unfoldable pub add_counts : Plan → Dict ℕ → Dict ℕ
add_counts [] r = r
add_counts ((d, c) ∷ p) r = add_counts p (insert d (lookup_or d 0 r + c) r)

unfoldable pub drop_counts : Plan → Dict ℕ → Dict ℕ
drop_counts [] r = r
drop_counts ((d, c) ∷ p) r = drop_counts p (insert d (lookup_or d 0 r - c) r)

unfoldable pub pay_counts : Plan → Dict ℤ → Dict ℤ
pay_counts [] acc = acc
pay_counts ((d, c) ∷ p) acc = pay_counts p (insert d (lookup_or d (pos 0) acc -ℤ pos c) acc)

-- The reserve that `reserve` returns, and the inventory that it leaves.
abbrev pub new_reserve : ℕ → Plan → MoneyInventory → ChangeReserve
new_reserve tid plan m = record {
  transaction_id = tid;
  counts = plan;
  currency = m.currency;
  status = active;
}

abbrev pub with_reserved : Plan → MoneyInventory → MoneyInventory
with_reserved plan m = record m { reserved = add_counts plan m.reserved }

unfoldable pub reserve : ℕ → Plan → MoneyInventory → Result (ChangeReserve × MoneyInventory)
reserve tid plan m =
    raise_when (not (can_reserve plan m)) change_unavailable
      (ok (new_reserve tid plan m, with_reserved plan m))

-- `release` and `consume` change the reserve too: `release_reserve` and `consume_reserve`.
unfoldable pub release : Plan → MoneyInventory → MoneyInventory
release counts m = record m { reserved = drop_counts counts m.reserved }

unfoldable pub consume : Plan → MoneyInventory → MoneyInventory
consume counts m = record m {
  accounting = pay_counts counts m.accounting;
  reserved = drop_counts counts m.reserved;
}
