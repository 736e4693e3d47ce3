-- ===== src/Examples/Money.antt =====
-- The money's theorems at work: src/flower_vending/domain/entities/money_inventory.py and
-- src/flower_vending/payments/change_manager.py.
use flower_vending_system.Prelude.{
  ℕ, ◌+◌, ◌-◌, ◌≤◌, if◌then◌else◌, ◌==◌, arith, [], ◌∷◌, ◌≡◌, ◌≢◌, refl,
}
use flower_vending_system.Prelude.Int.{pos, ◌-ℤ◌}
use flower_vending_system.Prelude.Dict.{lookup_or}
use flower_vending_system.Prelude.Result.{ok}
use flower_vending_system.Domain.Reserve.{Plan, plan_total}
use flower_vending_system.Money.Counts.{count_of, IsDict, worth}
use flower_vending_system.Money.Inventory.{
  available_counts, reserve, consume, new_reserve, with_reserved, can_reserve,
}
use flower_vending_system.Money.Reservation.{accounted, reserved_count, IsCovered, consume-reserve}
use flower_vending_system.Money.Planning.{
  found, add_count, try_counts, backtrack, insert_desc, denominations, plan_from, plan_change,
}
use flower_vending_system.Money.Planning.Sound.{plan_change_sound}
use flower_vending_system.Money.Planning.Complete.{plan_change_complete, IsFound}
use flower_vending_system.Money.WorstCase.{
  at_most, out_of_fuel, add_bill, scan_bills, explore, positive_bills, worst_case_change,
}
use flower_vending_system.Money.WorstCase.Safe.{worst_case_safe, Inserted}
use flower_vending_system.Money.WorstCase.Total.{worst_case_total}
use flower_vending_system.Scenarios.{change_money}

abbrev change_plan : Plan
change_plan = (50, 1) ∷ (100, 2) ∷ []

plans : plan_change 250 change_money ≡ found change_plan
unfolding plan_change plan_from backtrack try_counts add_count denominations insert_desc
    available_counts
plans = refl

plan_change_sound_example :
    (plan_total change_plan ≡ 250)
    × ((d : ℕ) → count_of d change_plan ≤ lookup_or d 0 (available_counts change_money))
    × IsDict change_plan
plan_change_sound_example = plan_change_sound 250 change_money (refl, (refl, (refl, tt))) plans

-- Two pieces of 100 and one of 50.
abbrev some_pieces : ℕ → ℕ
some_pieces d = if d == 100 then 2 else if d == 50 then 1 else 0

within : (d : ℕ) → some_pieces d ≤ lookup_or d 0 (available_counts change_money)
unfolding available_counts
within d = ground arith

plan_change_complete_example : IsFound (plan_change 250 change_money)
unfolding worth
plan_change_complete_example =
    plan_change_complete 250 change_money some_pieces (refl, (refl, (refl, tt)))
      (omega arith, (omega arith, (omega arith, tt))) within refl

covered : IsCovered change_money
covered d = ground arith

reserved :
    reserve 41 change_plan change_money
    ≡ ok (new_reserve 41 change_plan change_money, with_reserved change_plan change_money)
unfolding reserve can_reserve available_counts
reserved = refl

consume-reserve_example :
    ((d : ℕ)
      → (accounted d (consume change_plan (with_reserved change_plan change_money))
          ≡ accounted d change_money -ℤ pos (count_of d change_plan))
        × (reserved_count d (consume change_plan (with_reserved change_plan change_money))
            ≡ reserved_count d change_money))
    × IsCovered (consume change_plan (with_reserved change_plan change_money))
consume-reserve_example =
    consume-reserve 41 change_plan change_money (refl, (refl, tt)) covered reserved

worst : worst_case_change (100 ∷ 500 ∷ 1000 ∷ []) 400 change_money ≡ at_most 900
unfolding worst_case_change explore scan_bills add_bill positive_bills plan_change plan_from
    backtrack try_counts add_count denominations insert_desc available_counts
worst = refl

three_hundred : Inserted 400 (positive_bills (100 ∷ 500 ∷ [])) 300
unfolding positive_bills
three_hundred =
    Inserted.bill 100
      (Inserted.bill 100 (Inserted.bill 100 Inserted.nothing refl refl (omega arith)) refl refl
        (omega arith))
      refl refl (omega arith)

worst_case_safe_example :
    IsFound (plan_change (300 + 500 - 400) change_money) × (300 + 500 - 400 ≤ 400)
unfolding worst_case_change explore scan_bills add_bill positive_bills plan_change plan_from
    backtrack try_counts add_count denominations insert_desc available_counts
worst_case_safe_example =
    worst_case_safe (100 ∷ 500 ∷ []) 400 change_money {k = 400} 300 500 refl refl three_hundred refl
      (omega arith)

worst_case_total_example : worst_case_change (100 ∷ 500 ∷ []) 400 change_money ≢ out_of_fuel
worst_case_total_example = worst_case_total (100 ∷ 500 ∷ []) 400 change_money
