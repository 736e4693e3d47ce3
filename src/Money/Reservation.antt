-- ===== src/Money/Reservation.antt =====
-- What reserving, releasing and consuming do to each denomination's counts:
-- domain/entities/money_inventory.py.
use flower_vending_system.Prelude.{ℕ, ◌+◌, ◌-◌, ◌≤◌, true, [], ◌∷◌, ◌≡◌, refl, arith, sym}
use flower_vending_system.Prelude.Int.{ℤ, pos, ◌-ℤ◌, ◌≤ℤ◌}
use flower_vending_system.Prelude.Dict.{Dict, lookup_or, insert, lookup_or-insert}
use flower_vending_system.Prelude.Result.{ok}
use flower_vending_system.Domain.Reserve.{Plan, ChangeReserve}
use flower_vending_system.Money.Counts.{count_of, IsDict, lookup_or-none}
use flower_vending_system.Money.Inventory.{
  MoneyInventory, free_count, available_from, available_counts, all_available, can_reserve,
  add_counts, drop_counts, pay_counts, new_reserve, with_reserved, reserve, release, consume,
}

abbrev pub accounted : ℕ → MoneyInventory → ℤ
accounted d m = lookup_or d (pos 0) m.accounting

abbrev pub reserved_count : ℕ → MoneyInventory → ℕ
reserved_count d m = lookup_or d 0 m.reserved

pub add_counts_lem :
    (d : ℕ) (p : Plan) (r : Dict ℕ)
    → IsDict p
    → lookup_or d 0 (add_counts p r) ≡ lookup_or d 0 r + count_of d p
unfolding add_counts
add_counts_lem d [] r h = omega arith
add_counts_lem d ((k, c) ∷ p) r h = ground (
  arith,
  add_counts_lem d p (insert k (lookup_or k 0 r + c) r) h.1,
  lookup_or-insert d k (lookup_or k 0 r + c) 0 r,
  lookup_or-none k 0 p h.0,
)

pub drop_counts_lem :
    (d : ℕ) (p : Plan) (r : Dict ℕ)
    → IsDict p
    → lookup_or d 0 (drop_counts p r) ≡ lookup_or d 0 r - count_of d p
unfolding drop_counts
drop_counts_lem d [] r h = omega arith
drop_counts_lem d ((k, c) ∷ p) r h = ground (
  arith,
  drop_counts_lem d p (insert k (lookup_or k 0 r - c) r) h.1,
  lookup_or-insert d k (lookup_or k 0 r - c) 0 r,
  lookup_or-none k 0 p h.0,
)

minus_zero : (a : ℤ) → a -ℤ pos 0 ≡ a
minus_zero a = ground arith

pub pay_counts_lem :
    (d : ℕ) (p : Plan) (acc : Dict ℤ)
    → IsDict p
    → lookup_or d (pos 0) (pay_counts p acc) ≡ lookup_or d (pos 0) acc -ℤ pos (count_of d p)
unfolding pay_counts
pay_counts_lem d [] acc h = sym (minus_zero _)
pay_counts_lem d ((k, c) ∷ p) acc h = ground (
  arith,
  pay_counts_lem d p (insert k (lookup_or k (pos 0) acc -ℤ pos c) acc) h.1,
  lookup_or-insert d k (lookup_or k (pos 0) acc -ℤ pos c) (pos 0) acc,
  lookup_or-none k 0 p h.0,
  minus_zero (lookup_or k (pos 0) acc -ℤ pos c),
)

pub lookup_or-available :
    (d : ℕ) (r : Dict ℕ) (acc : Dict ℤ)
    → lookup_or d 0 (available_from r acc) ≡ free_count (lookup_or d (pos 0) acc) (lookup_or d 0 r)
lookup_or-available d r [] = ground arith
lookup_or-available d r ((k, c) ∷ acc) = ground (arith, lookup_or-available d r acc)

all_available_lem :
    (d : ℕ) (av : Dict ℕ) (p : Plan) → all_available av p ≡ true → count_of d p ≤ lookup_or d 0 av
all_available_lem d av [] h = omega arith
all_available_lem d av ((k, c) ∷ p) h = ground (arith, all_available_lem d av p)

-- No denomination has more pieces reserved than the books say are in the machine.
abbrev pub IsCovered : MoneyInventory → Type 0
IsCovered m = (d : ℕ) → pos (reserved_count d m) ≤ℤ accounted d m

reserve-ok :
    (tid : ℕ) (p : Plan) (m : MoneyInventory) {r : ChangeReserve} {m' : MoneyInventory}
    → reserve tid p m ≡ ok (r, m')
    → (all_available (available_counts m) p ≡ true)
      × (r ≡ new_reserve tid p m)
      × (m' ≡ with_reserved p m)
unfolding reserve can_reserve
reserve-ok tid p m e = ground arith

with_reserved_lem :
    (p : Plan) (m : MoneyInventory) (d : ℕ)
    → IsDict p
    → all_available (available_counts m) p ≡ true
    → (reserved_count d (with_reserved p m) ≡ reserved_count d m + count_of d p)
      × (count_of d p ≤ free_count (accounted d m) (reserved_count d m))
unfolding available_counts
with_reserved_lem p m d hp h = (
  add_counts_lem d p m.reserved hp,
  rw (← lookup_or-available d m.reserved m.accounting)
      (all_available_lem d (available_from m.reserved m.accounting) p h),
)

-- When a plan is reserved, the reserve holds it, exactly its counts are added to the reserved ones,
-- the books are as before, and the reserved pieces are still covered.
pub reserve_lem :
    (tid : ℕ) (p : Plan) (m : MoneyInventory) {r : ChangeReserve} {m' : MoneyInventory}
    → IsDict p
    → IsCovered m
    → reserve tid p m ≡ ok (r, m')
    → (r.counts ≡ p)
      × (m'.accounting ≡ m.accounting)
      × ((d : ℕ) → reserved_count d m' ≡ reserved_count d m + count_of d p)
      × IsCovered m'
reserve_lem tid p m {r} {m'} hp hc e =
    let (h, er, em) = reserve-ok tid p m e in
    (
      rw er refl,
      rw em refl,
      λ d. rw em (with_reserved_lem p m d hp h).0,
      λ d. rw em (ground (arith, with_reserved_lem p m d hp h, hc d)),
    )

-- Releasing what was reserved puts every denomination's reserved count back and leaves the books as
-- they were.
pub release-reserve :
    (tid : ℕ) (p : Plan) (m : MoneyInventory) {r : ChangeReserve} {m' : MoneyInventory}
    → IsDict p
    → reserve tid p m ≡ ok (r, m')
    → ((release r.counts m').accounting ≡ m.accounting)
      × ((d : ℕ) → reserved_count d (release r.counts m') ≡ reserved_count d m)
unfolding release
release-reserve tid p m {r} {m'} hp e =
    let (h, er, em) = reserve-ok tid p m e in
    (
      rw em refl,
      λ d.
          rw (er, em)
            (omega (
              arith,
              drop_counts_lem d p (add_counts p m.reserved) hp,
              add_counts_lem d p m.reserved hp,
            )),
    )

-- Paying out what was reserved takes exactly the plan out of the books, leaves the other
-- reservations as they were before it, and keeps the reserved pieces covered.
pub consume-reserve :
    (tid : ℕ) (p : Plan) (m : MoneyInventory) {r : ChangeReserve} {m' : MoneyInventory}
    → IsDict p
    → IsCovered m
    → reserve tid p m ≡ ok (r, m')
    → ((d : ℕ)
        → (accounted d (consume r.counts m') ≡ accounted d m -ℤ pos (count_of d p))
          × (reserved_count d (consume r.counts m') ≡ reserved_count d m))
      × IsCovered (consume r.counts m')
unfolding consume
consume-reserve tid p m {r} {m'} hp hc e =
    let (h, er, em) = reserve-ok tid p m e in
    let paid = λ (d : ℕ). pay_counts_lem d p m.accounting hp in
    let left = λ (d : ℕ). drop_counts_lem d p (add_counts p m.reserved) hp in
    let added = λ (d : ℕ). with_reserved_lem p m d hp h in
    (
      λ d. (rw (er, em) (paid d), rw (er, em) (omega (arith, left d, added d))),
      λ d. rw (er, em) (ground (arith, paid d, left d, added d, hc d)),
    )
