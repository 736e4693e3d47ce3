-- ===== src/App/Outcome/Refund.antt =====
-- How `dispense_refund` of payments/change_manager.py ends.
use flower_vending_system.Prelude.{ℕ, ◌≤◌, true, false, none, [], ◌∷◌, ◌==◌, ◌≡◌, refl, arith}
use flower_vending_system.Prelude.Int.{pos, ◌-ℤ◌}
use flower_vending_system.Prelude.Dict.{Dict, lookup, lookup_or}
use flower_vending_system.Prelude.Result.{ok, change_unavailable}
use flower_vending_system.Domain.Reserve.{Plan, plan_total}
use flower_vending_system.Money.Counts.{count_of, IsDict, lookup_or-none}
use flower_vending_system.Money.Inventory.{
  MoneyInventory, available_counts, all_available, can_reserve, new_reserve, with_reserved, reserve,
}
use flower_vending_system.Money.Reservation.{accounted, IsCovered, consume-reserve}
use flower_vending_system.Money.Planning.{found, exhausted, plan_change}
use flower_vending_system.Money.Planning.Sound.{plan_change_sound}
use flower_vending_system.App.World.{World, Env, PayoutReply, call_payout, ◌>>=◌, modify}
use flower_vending_system.App.Change.{
  find_plan, reserve_money, settle_refund, modify_money, dispense_refund,
}
use flower_vending_system.App.Wp.{Returns, Raises}

rest_within :
    (d c k : ℕ) (p : Plan) (av : Dict ℕ)
    → lookup d p ≡ none
    → count_of k ((d, c) ∷ p) ≤ lookup_or k 0 av
    → count_of k p ≤ lookup_or k 0 av
rest_within d c k p av n h = ground (arith, lookup_or-none d 0 p n)

within-all_available :
    (p : Plan) (av : Dict ℕ)
    → IsDict p
    → ((d : ℕ) → count_of d p ≤ lookup_or d 0 av)
    → all_available av p ≡ true
within-all_available [] av h within = refl
within-all_available ((d, c) ∷ p) av h within =
    ground
      (arith, within d, within-all_available p av h.1 (λ k. rest_within d c k p av h.0 (within k)))

-- A plan that was found can be reserved.
pub planned-reserve :
    (tid target : ℕ) (m : MoneyInventory) {p : Plan}
    → IsDict m.accounting
    → plan_change target m ≡ found p
    → reserve tid p m ≡ ok (new_reserve tid p m, with_reserved p m)
unfolding reserve can_reserve
planned-reserve tid target m {p} h e =
    let sound = plan_change_sound target m h e in
    rw (within-all_available p (available_counts m) sound.2 sound.1) refl

-- A refund that the dispenser pays out takes exactly a plan worth the amount out of the books, and
-- the reserved pieces stay covered; the amount is above zero and a plan for it is found, the books
-- list each denomination once, and the pieces reserved before are covered.
pub dispense_refund-pays :
    (env : Env) (tid amount : ℕ) (w : World) {p : Plan}
    → (amount == 0) ≡ false
    → IsDict w.money.accounting
    → IsCovered w.money
    → plan_change amount w.money ≡ found p
    → env.payout w.tick ≡ PayoutReply.paid_out
    → Returns
        (dispense_refund env tid amount)
        (λ u w'.
          (plan_total p ≡ amount)
          × ((d : ℕ) → accounted d w'.money ≡ accounted d w.money -ℤ pos (count_of d p))
          × IsCovered w'.money)
        w
unfolding dispense_refund find_plan reserve_money settle_refund modify_money call_payout ◌>>=◌
    modify
dispense_refund-pays env tid amount w {p} z h c e paid =
    let sound = plan_change_sound amount w.money h e in
    let r = planned-reserve tid amount w.money h e in
    let after = consume-reserve tid p w.money sound.2 c r in
    record { post = rw (z, e, r, paid) (sound.0, (λ d. (after.0 d).0), after.1) }

-- When no plan for the amount is found, the refund raises and changes nothing.
pub dispense_refund-unplanned :
    (env : Env) (tid amount : ℕ) (w : World)
    → (amount == 0) ≡ false
    → plan_change amount w.money ≡ exhausted
    → Raises (dispense_refund env tid amount) (λ e w'. (e ≡ change_unavailable) × (w' ≡ w)) w
unfolding dispense_refund find_plan ◌>>=◌
dispense_refund-unplanned env tid amount w z e = record { post = rw (z, e) (refl, refl) }
