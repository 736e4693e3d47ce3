-- ===== src/Money/WorstCase/Total.antt =====
-- The loop of `_calculate_worst_case_change` ends: payments/change_manager.py.
use flower_vending_system.Prelude.{
  ℕ, zero, suc, ◌+◌, ◌-◌, ◌≤◌, ◌<◌, false, List, [], ◌∷◌, ltb, ◌==◌, if◌then◌else◌, contains,
  length, ◌≡◌, ◌≢◌, refl, inl, inr, arith, Bool-cases, ltb→lt, ap, ◌∙◌, ==_iff,
}
use flower_vending_system.Money.Inventory.{MoneyInventory}
use flower_vending_system.Money.Planning.{plan_change, Search-cases}
use flower_vending_system.Money.WorstCase.{
  Worklist, Scan, continue, unpayable, scan_raised, push, add_bill, scan_bills, Scan-cases,
  out_of_fuel, explore, positive_bills, worst_case_change,
}

-- How many amounts below `n` are not reached yet.
abbrev unreached : ℕ → List ℕ → ℕ
unreached zero xs = 0
unreached (suc n) xs = (if contains n xs then 0 else 1) + unreached n xs

unreached_above : (n b : ℕ) (xs : List ℕ) → n ≤ b → unreached n (b ∷ xs) ≡ unreached n xs
unreached_above zero b xs h = refl
unreached_above (suc n) b xs h = ground (arith, unreached_above n b xs)

unreached-cons :
    (n b : ℕ) (xs : List ℕ)
    → contains b xs ≡ false
    → b < n
    → unreached n xs ≡ suc (unreached n (b ∷ xs))
unreached-cons zero b xs new h = absurd (omega arith)
unreached-cons (suc n) b xs new h = elim (Bool-cases (n == b)) [
  | inl e ↦ ground (arith, unreached_above n b xs, ap (λ (i : ℕ). contains i xs) ((==_iff n b).0 e))
  | inr e ↦ ground (arith, unreached-cons n b xs new)
]

unreached-le : (n : ℕ) (xs : List ℕ) → unreached n xs ≤ n
unreached-le zero xs = omega arith
unreached-le (suc n) xs = ground (arith, unreached-le n xs)

abbrev measure : ℕ → Worklist → ℕ
measure price w = unreached price w.reachable + length w.pending

push-measure : (price b : ℕ) (w : Worklist) → b < price → measure price (push b w) ≡ measure price w
push-measure price b w h = elim (Bool-cases (contains b w.reachable)) [
  | inl old ↦ rw old refl
  | inr new ↦ rw new (omega (arith, unreached-cons price b w.reachable new h))
]

module _ (m : MoneyInventory) (price : ℕ) where
  abbrev KeepsMeasure : Worklist → Scan → Type 0
  KeepsMeasure w (continue w') = measure price w' ≡ measure price w
  KeepsMeasure w unpayable = Unit {0}
  KeepsMeasure w scan_raised = Unit {0}

  add_bill-KeepsMeasure : (a d : ℕ) (w : Worklist) → KeepsMeasure w (add_bill m price a d w)
  unfolding add_bill
  add_bill-KeepsMeasure a d w = elim (Bool-cases (ltb (a + d) price)) [
    | inl less ↦ rw less (push-measure price (a + d) w (ltb→lt _ _ less))
    | inr more ↦ rw more (elim (Search-cases (plan_change (a + d - price) m)) [
      | inl (p, e) ↦ rw e refl
      | inr (inl e) ↦ rw e tt
      | inr (inr e) ↦ rw e tt
    ])
  ]

  KeepsMeasure-trans :
      (w w' : Worklist) (s : Scan)
      → KeepsMeasure w (continue w')
      → KeepsMeasure w' s
      → KeepsMeasure w s
  KeepsMeasure-trans w w' (continue v) h k = k ∙ h
  KeepsMeasure-trans w w' unpayable h k = tt
  KeepsMeasure-trans w w' scan_raised h k = tt

  scan_bills-KeepsMeasure :
      (a : ℕ) (ds : List ℕ) (w : Worklist) → KeepsMeasure w (scan_bills m price a ds w)
  unfolding scan_bills
  scan_bills-KeepsMeasure a [] w = refl
  scan_bills-KeepsMeasure a (d ∷ ds) w = elim (Scan-cases (add_bill m price a d w)) [
    | inl (w', e) ↦
        rw (e, scan_bills)
          (KeepsMeasure-trans w w' (scan_bills m price a ds w')
            (rw e at (add_bill-KeepsMeasure a d w)) (scan_bills-KeepsMeasure a ds w'))
    | inr (inl e) ↦ rw (e, scan_bills) tt
    | inr (inr e) ↦ rw (e, scan_bills) tt
  ]

  explore-ne-out_of_fuel :
      (ds : List ℕ) (fuel : ℕ) (reachable pending : List ℕ) (worst : ℕ)
      → unreached price reachable + length pending < fuel
      → explore m price ds fuel reachable pending worst ≢ out_of_fuel
  unfolding explore
  explore-ne-out_of_fuel ds zero reachable pending worst h = absurd (omega arith)
  explore-ne-out_of_fuel ds (suc fuel) reachable [] worst h = λ e. cc
  explore-ne-out_of_fuel ds (suc fuel) reachable (a ∷ pending) worst h =
      let w : Worklist = record { reachable = reachable; pending = pending; worst = worst } in
      elim (Scan-cases (scan_bills m price a ds w)) [
        | inl (w', e) ↦
            let same : KeepsMeasure w (continue w') = rw e at (scan_bills-KeepsMeasure a ds w) in
            rw (e, explore)
              (explore-ne-out_of_fuel ds fuel w'.reachable w'.pending w'.worst
                (omega (arith, same)))
        | inr (inl e) ↦ rw (e, explore) (λ k. cc)
        | inr (inr e) ↦ rw (e, explore) (λ k. cc)
      ]

-- The fuel, two more than the price, is enough: the search over the underpaid amounts always
-- ends with an answer.
pub worst_case_total :
    (bills : List ℕ) (price : ℕ) (m : MoneyInventory)
    → worst_case_change bills price m ≢ out_of_fuel
unfolding worst_case_change
worst_case_total bills price m = ground (
  arith,
  explore-ne-out_of_fuel m price (positive_bills bills) (suc (suc price)) (0 ∷ []) (0 ∷ []) 0,
  unreached-le price (0 ∷ []),
)
