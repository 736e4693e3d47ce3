-- ===== src/Simulators/Dispenser/Partial.antt =====
-- `_partial_plan` of simulators/devices/mock_change_dispenser.py: what a partial payout pays.
use flower_vending_system.Prelude.{
  ℕ, ◌+◌, ◌-◌, ◌≤◌, false, none, List, [], ◌∷◌, ◌≡◌, refl, arith, contains, ◌==◌,
}
use flower_vending_system.Prelude.Dict.{lookup, lookup_or, insert, lookup-insert, lookup_or-insert}
use flower_vending_system.Domain.Reserve.{Plan}
use flower_vending_system.Money.Counts.{count_of, IsDict, IsDistinct}
use flower_vending_system.Money.Planning.{insert_desc}
use flower_vending_system.Money.Planning.Sound.{contains-insert_desc, insert_desc-IsDistinct}
use flower_vending_system.Simulators.Dispenser.{
  keys, sorted_desc, paid_count, pay_if_any, partial_from, partial_plan,
}

-- How many pieces a plan has.
unfoldable pub pieces : Plan → ℕ
pieces [] = 0
pieces ((d, c) ∷ p) = c + pieces p

-- How many pieces are asked for of the denominations of a list.
asked : Plan → List ℕ → ℕ
asked requested [] = 0
asked requested (d ∷ ds) = lookup_or d 0 requested + asked requested ds

pieces-insert : (d n : ℕ) (p : Plan) → lookup d p ≡ none → pieces (insert d n p) ≡ n + pieces p
unfolding pieces
pieces-insert d n [] h = refl
pieces-insert d n ((e, c) ∷ p) h = ground (arith, pieces-insert d n p)

pieces-pay_if_any :
    (d n : ℕ) (p : Plan) → lookup d p ≡ none → pieces (pay_if_any d n p) ≡ n + pieces p
pieces-pay_if_any d n p h = ground (arith, pieces-insert d n p h)

lookup-pay_if_any :
    (e d n : ℕ) (p : Plan) → (e == d) ≡ false → lookup e (pay_if_any d n p) ≡ lookup e p
lookup-pay_if_any e d n p h = ground (arith, lookup-insert e d n p)

-- No denomination of the list has been paid.
abbrev Fresh : List ℕ → Plan → Type 0
Fresh [] p = Unit {0}
Fresh (d ∷ ds) p = (lookup d p ≡ none) × Fresh ds p

Fresh-pay_if_any :
    (d n : ℕ) (ds : List ℕ) (p : Plan)
    → contains d ds ≡ false
    → Fresh ds p
    → Fresh ds (pay_if_any d n p)
Fresh-pay_if_any d n [] p h f = tt
Fresh-pay_if_any d n (e ∷ ds) p h f =
    (ground (arith, lookup-pay_if_any e d n p), Fresh-pay_if_any d n ds p (ground arith) f.1)

pieces-partial_from :
    (skip : ℕ) (ds : List ℕ) (requested paid : Plan)
    → skip ≤ 1
    → IsDistinct ds
    → Fresh ds paid
    → pieces (partial_from skip ds requested paid) ≡ pieces paid + (asked requested ds - skip)
unfolding partial_from asked
pieces-partial_from skip [] requested paid h k f = omega arith
pieces-partial_from skip (d ∷ ds) requested paid h k f =
    let c = lookup_or d 0 requested in
    let n = paid_count skip c in
    ground (
      arith,
      pieces-partial_from (skip - (c - n)) ds requested (pay_if_any d n paid) (omega arith) k.1
          (Fresh-pay_if_any d n ds paid k.0 f.1),
      pieces-pay_if_any d n paid f.0,
    )

count_of-partial_from :
    (e skip : ℕ) (ds : List ℕ) (requested paid : Plan)
    → count_of e paid ≤ count_of e requested
    → count_of e (partial_from skip ds requested paid) ≤ count_of e requested
unfolding partial_from
count_of-partial_from e skip [] requested paid h = h
count_of-partial_from e skip (d ∷ ds) requested paid h =
    let c = lookup_or d 0 requested in
    let n = paid_count skip c in
    count_of-partial_from e (skip - (c - n)) ds requested (pay_if_any d n paid)
      (ground (arith, lookup_or-insert e d n 0 paid))

asked-insert_desc :
    (requested : Plan) (d : ℕ) (ds : List ℕ)
    → asked requested (insert_desc d ds) ≡ asked requested (d ∷ ds)
unfolding asked insert_desc
asked-insert_desc requested d [] = refl
asked-insert_desc requested d (e ∷ ds) = ground (arith, asked-insert_desc requested d ds)

contains-sorted_desc :
    (k : ℕ) (p : Plan) → lookup k p ≡ none → contains k (sorted_desc (keys p)) ≡ false
unfolding sorted_desc
contains-sorted_desc k [] h = refl
contains-sorted_desc k ((d, c) ∷ p) h =
    ground (arith, contains-sorted_desc k p, contains-insert_desc k d (sorted_desc (keys p)))

sorted_desc-IsDistinct : (p : Plan) → IsDict p → IsDistinct (sorted_desc (keys p))
unfolding sorted_desc
sorted_desc-IsDistinct [] h = tt
sorted_desc-IsDistinct ((d, c) ∷ p) h =
    insert_desc-IsDistinct d (sorted_desc (keys p)) (contains-sorted_desc d p h.0)
      (sorted_desc-IsDistinct p h.1)

asked-cons :
    (d c : ℕ) (p : Plan) (ds : List ℕ) → contains d ds ≡ false → asked ((d, c) ∷ p) ds ≡ asked p ds
unfolding asked
asked-cons d c p [] h = refl
asked-cons d c p (e ∷ ds) h = ground (arith, asked-cons d c p ds)

asked-sorted_desc : (p : Plan) → IsDict p → asked p (sorted_desc (keys p)) ≡ pieces p
unfolding pieces sorted_desc asked
asked-sorted_desc [] h = refl
asked-sorted_desc ((d, c) ∷ p) h = ground (
  arith,
  asked-insert_desc ((d, c) ∷ p) d (sorted_desc (keys p)),
  asked-cons d c p (sorted_desc (keys p)) (contains-sorted_desc d p h.0),
  asked-sorted_desc p h.1,
)

Fresh-nothing : (ds : List ℕ) → Fresh ds []
Fresh-nothing [] = tt
Fresh-nothing (d ∷ ds) = (refl, Fresh-nothing ds)

-- A partial payout of a request that lists each denomination once is short by exactly one piece, if
-- any is asked for, and pays no more of any denomination than is asked.
pub partial_plan_lem :
    (requested : Plan)
    → IsDict requested
    → (pieces (partial_plan requested) ≡ pieces requested - 1)
      × ((d : ℕ) → count_of d (partial_plan requested) ≤ count_of d requested)
unfolding partial_plan pieces
partial_plan_lem requested h = (
  ground (
    arith,
    pieces-partial_from 1 (sorted_desc (keys requested)) requested [] (omega arith)
        (sorted_desc-IsDistinct requested h) (Fresh-nothing (sorted_desc (keys requested))),
    asked-sorted_desc requested h,
  ),
  λ d. count_of-partial_from d 1 (sorted_desc (keys requested)) requested [] (omega arith),
)
