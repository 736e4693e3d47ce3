-- ===== src/Money/WorstCase/Chart.antt =====
-- What the loop of `_calculate_worst_case_change` (payments/change_manager.py) has charted when
-- it ends.
use flower_vending_system.Prelude.{
  ℕ, zero, suc, ◌+◌, ◌-◌, ◌≤◌, ◌<◌, max, true, false, List, [], ◌∷◌, ltb, ◌==◌, contains, ◌≡◌, ◌⊎◌,
  inl, inr, arith, Bool-cases, ==_iff,
}
use flower_vending_system.Money.Inventory.{MoneyInventory}
use flower_vending_system.Money.Planning.{plan_change, Search-cases}
use flower_vending_system.Money.Planning.Complete.{IsFound}
use flower_vending_system.Money.WorstCase.{
  Worklist, Scan, continue, unpayable, scan_raised, push, add_bill, scan_bills, WorstCase, at_most,
  explore, Scan-cases,
}

abbrev pub Has : ℕ → List ℕ → Type 0
Has a xs = contains a xs ≡ true

module _ (m : MoneyInventory) (price : ℕ) where
  -- After the bill `d` on top of `a` the amount is known, or the change can be paid.
  pub record IsCharted (reachable : List ℕ) (worst a d : ℕ) : Type 0 where
    pub known : a + d < price → Has (a + d) reachable
    pub payable : price ≤ a + d → IsFound (plan_change (a + d - price) m)
    pub bounded : price ≤ a + d → a + d - price ≤ worst

  -- What a part of a round keeps of the worklist.
  record Grows (w w' : Worklist) : Type 0 where
    keeps_reachable : (x : ℕ) → Has x w.reachable → Has x w'.reachable
    keeps_pending : (x : ℕ) → Has x w.pending → Has x w'.pending
    keeps_worst : w.worst ≤ w'.worst
    new_pending : (x : ℕ) → Has x w'.reachable → Has x w.reachable ⊎ Has x w'.pending

  Grows-refl : (w : Worklist) → Grows w w
  Grows-refl w = record {
    keeps_reachable = λ x h. h;
    keeps_pending = λ x h. h;
    keeps_worst = omega arith;
    new_pending = λ x h. inl h;
  }

  Grows-trans : {u v w : Worklist} → Grows u v → Grows v w → Grows u w
  Grows-trans g k = record {
    keeps_reachable = λ x h. k.keeps_reachable x (g.keeps_reachable x h);
    keeps_pending = λ x h. k.keeps_pending x (g.keeps_pending x h);
    keeps_worst = omega (arith, g.keeps_worst, k.keeps_worst);
    new_pending = λ x h. elim (k.new_pending x h) [
      | inl old ↦ elim (g.new_pending x old) [ inl o ↦ inl o | inr p ↦ inr (k.keeps_pending x p) ]
      | inr p ↦ inr p
    ];
  }

  IsCharted-mono :
      {w w' : Worklist} (a d : ℕ)
      → Grows w w'
      → IsCharted w.reachable w.worst a d
      → IsCharted w'.reachable w'.worst a d
  IsCharted-mono a d g c = record {
    known = λ l. g.keeps_reachable (a + d) (c.known l);
    payable = c.payable;
    bounded = λ l. omega (arith, c.bounded l, g.keeps_worst);
  }

  push-Grows : (b : ℕ) (w : Worklist) → Grows w (push b w) × Has b (push b w).reachable
  push-Grows b w = elim (Bool-cases (contains b w.reachable)) [
    | inl old ↦ rw old (Grows-refl w, old)
    | inr new ↦ rw new (
      record {
        keeps_reachable = λ x h. ground arith;
        keeps_pending = λ x h. ground arith;
        keeps_worst = omega arith;
        new_pending = λ x h. ground arith;
      },
      ground arith,
    )
  ]

  -- If the pass over `ds` goes on, then each bill of `ds` on top of `a` is charted.
  abbrev ChartsAll : ℕ → List ℕ → Worklist → Scan → Type 0
  ChartsAll a ds w (continue w') =
      Grows w w' × ((d : ℕ) → Has d ds → IsCharted w'.reachable w'.worst a d)
  ChartsAll a ds w unpayable = Unit {0}
  ChartsAll a ds w scan_raised = Unit {0}

  abbrev Charts : ℕ → ℕ → Worklist → Scan → Type 0
  Charts a d w (continue w') = Grows w w' × IsCharted w'.reachable w'.worst a d
  Charts a d w unpayable = Unit {0}
  Charts a d w scan_raised = Unit {0}

  raise_worst :
      (a d : ℕ) (w : Worklist)
      → ltb (a + d) price ≡ false
      → IsFound (plan_change (a + d - price) m)
      → Charts a d w (continue (record w { worst = max w.worst (a + d - price) }))
  raise_worst a d w more f = (
    record {
      keeps_reachable = λ x h. h;
      keeps_pending = λ x h. h;
      keeps_worst = omega arith;
      new_pending = λ x h. inl h;
    },
    record { known = λ l. ground arith; payable = λ l. f; bounded = λ l. omega arith },
  )

  add_bill-Charts : (a d : ℕ) (w : Worklist) → Charts a d w (add_bill m price a d w)
  unfolding add_bill
  add_bill-Charts a d w = elim (Bool-cases (ltb (a + d) price)) [
    | inl less ↦ rw less (
        let (g, k) = push-Grows (a + d) w in
        (g, record { known = λ l. k; payable = λ l. ground arith; bounded = λ l. ground arith }))
    | inr more ↦ rw more (elim (Search-cases (plan_change (a + d - price) m)) [
      | inl (p, e) ↦ rw e (raise_worst a d w more (p, e))
      | inr (inl e) ↦ rw e tt
      | inr (inr e) ↦ rw e tt
    ])
  ]

  ChartsAll-cons :
      (a d : ℕ) (ds : List ℕ) (w w' : Worklist) (s : Scan)
      → Charts a d w (continue w')
      → ChartsAll a ds w' s
      → ChartsAll a (d ∷ ds) w s
  ChartsAll-cons a d ds w w' (continue v) (g, c) (k, all) = (
    Grows-trans g k,
    λ b h. elim (Bool-cases (b == d)) [
      | inl e ↦ rw ((==_iff b d).0 e) (IsCharted-mono a d k c)
      | inr e ↦ all b (ground arith)
    ],
  )
  ChartsAll-cons a d ds w w' unpayable h k = tt
  ChartsAll-cons a d ds w w' scan_raised h k = tt

  scan_bills-ChartsAll :
      (a : ℕ) (ds : List ℕ) (w : Worklist) → ChartsAll a ds w (scan_bills m price a ds w)
  unfolding scan_bills
  scan_bills-ChartsAll a [] w = (Grows-refl w, λ d h. ground arith)
  scan_bills-ChartsAll a (d ∷ ds) w = elim (Scan-cases (add_bill m price a d w)) [
    | inl (w', e) ↦
        rw (e, scan_bills)
          (ChartsAll-cons a d ds w w' (scan_bills m price a ds w') (rw e at (add_bill-Charts a d w))
            (scan_bills-ChartsAll a ds w'))
    | inr (inl e) ↦ rw (e, scan_bills) tt
    | inr (inr e) ↦ rw (e, scan_bills) tt
  ]

  module _ (ds : List ℕ) where
    abbrev pub IsProcessed : List ℕ → ℕ → ℕ → Type 0
    IsProcessed reachable worst a = (d : ℕ) → Has d ds → IsCharted reachable worst a d

    -- Every known amount is still to be looked at, or has been.
    abbrev pub IsInvariant : Worklist → Type 0
    IsInvariant w =
        (x : ℕ) → Has x w.reachable → Has x w.pending ⊎ IsProcessed w.reachable w.worst x

    -- The charted amounts when the loop has ended with `k`: 0 is among them, and all are processed.
    abbrev pub IsChart : WorstCase → Type 0
    IsChart (at_most k) =
        (reachable : List ℕ) × Has 0 reachable
        × ((x : ℕ) → Has x reachable → IsProcessed reachable k x)
    IsChart _ = Unit {0}

    next-IsInvariant :
        (a : ℕ) (reachable pending : List ℕ) (worst : ℕ) (w' : Worklist)
        → IsInvariant (record { reachable = reachable; pending = a ∷ pending; worst = worst })
        → ChartsAll a ds
            (record { reachable = reachable; pending = pending; worst = worst })
            (continue w')
        → IsInvariant w'
    next-IsInvariant a reachable pending worst w' inv (g, all) x h = elim (g.new_pending x h) [
      | inr p ↦ inl p
      | inl old ↦ elim (inv x old) [
        | inr done ↦ inr (λ d k. IsCharted-mono x d g (done d k))
        | inl todo ↦ elim (Bool-cases (x == a)) [
          | inl e ↦ inr (rw ((==_iff x a).0 e) all)
          | inr e ↦ inl (g.keeps_pending x (ground arith))
        ]
      ]
    ]

    pub explore-IsChart :
        (fuel : ℕ) (reachable pending : List ℕ) (worst : ℕ)
        → IsInvariant (record { reachable = reachable; pending = pending; worst = worst })
        → Has 0 reachable
        → IsChart (explore m price ds fuel reachable pending worst)
    unfolding explore
    explore-IsChart zero reachable pending worst inv z = tt
    explore-IsChart (suc fuel) reachable [] worst inv z =
        (reachable, z, λ x h. elim (inv x h) [ inl p ↦ ground arith | inr d ↦ d ])
    explore-IsChart (suc fuel) reachable (a ∷ pending) worst inv z =
        let w : Worklist = record { reachable = reachable; pending = pending; worst = worst } in
        elim (Scan-cases (scan_bills m price a ds w)) [
          | inl (w', e) ↦
              let charts : ChartsAll a ds w (continue w') = rw e at (scan_bills-ChartsAll a ds w) in
              rw (e, explore)
                (explore-IsChart fuel w'.reachable w'.pending w'.worst
                  (next-IsInvariant a reachable pending worst w' inv charts)
                  (charts.0.keeps_reachable 0 z))
          | inr (inl e) ↦ rw (e, explore) tt
          | inr (inr e) ↦ rw (e, explore) tt
        ]
