-- ===== src/Money/Planning/Sound.antt =====
-- A plan that the search finds pays exactly the target with free pieces:
-- payments/change_manager.py, `plan_change`.
use flower_vending_system.Prelude.{
  ℕ, zero, suc, ◌-◌, ◌*◌, ◌/◌, ◌≤◌, ◌<◌, min, false, none, List, [], ◌∷◌, ◌≡◌, refl, arith, ◌==◌,
  if◌then◌else◌, contains, Bool-cases, inl, inr, ==_iff, ◌||◌,
}
use flower_vending_system.Prelude.Int.{ℤ}
use flower_vending_system.Prelude.Dict.{
  Dict, lookup, lookup_or, insert, lookup-insert, lookup_or-insert,
}
use flower_vending_system.Domain.Reserve.{Plan, plan_total}
use flower_vending_system.Money.Counts.{
  count_of, IsDict, IsDistinct, insert-IsDict, plan_total-insert,
}
use flower_vending_system.Money.Inventory.{MoneyInventory, available_from, available_counts}
use flower_vending_system.Money.Planning.{
  Search, found, exhausted, raised, add_count, try_counts, Search-cases, backtrack, insert_desc,
  denominations, plan_from, plan_change,
}

-- `p` pays `target` with pieces of the denominations `ds`, as many as are available.
pub record Pays (available : Dict ℕ) (ds : List ℕ) (target : ℕ) (p : Plan) : Type 0 where
  pub pays_exactly : plan_total p ≡ target
  pub pays_available : (d : ℕ) → count_of d p ≤ lookup_or d 0 available
  pub pays_from : (d : ℕ) → contains d ds ≡ false → lookup d p ≡ none
  pub pays_once : IsDict p

Pays-nil : (av : Dict ℕ) (ds : List ℕ) → Pays av ds 0 []
unfolding plan_total
Pays-nil av ds = record {
  pays_exactly = refl;
  pays_available = λ d. omega arith;
  pays_from = λ d h. refl;
  pays_once = tt;
}

contains_tail : (k d : ℕ) (ds : List ℕ) → contains k (d ∷ ds) ≡ false → contains k ds ≡ false
contains_tail k d ds h = ground arith

add_count-zero : (d : ℕ) (p : Plan) → add_count d 0 p ≡ p
unfolding add_count
add_count-zero d p = refl

pub add_count-suc : (d c : ℕ) (p : Plan) → add_count d (suc c) p ≡ insert d (suc c) p
unfolding add_count
add_count-suc d c p = ground arith

Pays-add_count :
    (av : Dict ℕ) (d c : ℕ) (ds : List ℕ) (target : ℕ) (p : Plan)
    → contains d ds ≡ false
    → c ≤ lookup_or d 0 av
    → d * c ≤ target
    → Pays av ds (target - d * c) p
    → Pays av (d ∷ ds) target (add_count d c p)
Pays-add_count av d zero ds target p fresh le fits h = rw add_count-zero (record {
  pays_exactly = omega (arith, h.pays_exactly);
  pays_available = h.pays_available;
  pays_from = λ k n. h.pays_from k (contains_tail k d ds n);
  pays_once = h.pays_once;
})
Pays-add_count av d (suc c) ds target p fresh le fits h = rw add_count-suc (record {
  pays_exactly = omega (arith, h.pays_exactly, plan_total-insert d (suc c) p (h.pays_from d fresh));
  pays_available = λ k. ground (arith, h.pays_available k, lookup_or-insert k d (suc c) 0 p);
  pays_from =
      λ k n. ground (arith, lookup-insert k d (suc c) p, h.pays_from k (contains_tail k d ds n));
  pays_once = insert-IsDict d (suc c) p h.pays_once;
})

-- If a plan is found, it pays.
abbrev pub PaysIfFound : Dict ℕ → List ℕ → ℕ → Search → Type 0
PaysIfFound av ds r (found p) = Pays av ds r p
PaysIfFound av ds r exhausted = Unit {0}
PaysIfFound av ds r raised = Unit {0}

mul_le : (d c k r : ℕ) → c ≤ k → d * k ≤ r → d * c ≤ r
mul_le d c k r h e = grind arith

module _ (av : Dict ℕ) (next : ℕ → Search) (d : ℕ) (ds : List ℕ) where
  try_counts-PaysIfFound :
      (r c : ℕ)
      → ((s : ℕ) → PaysIfFound av ds s (next s))
      → contains d ds ≡ false
      → c ≤ lookup_or d 0 av
      → d * c ≤ r
      → PaysIfFound av (d ∷ ds) r (try_counts next d r c)
  unfolding try_counts
  try_counts-PaysIfFound r zero sound fresh le fits = elim (Search-cases (next (r - d * 0))) [
    | inl (p, e) ↦
        rw (e, try_counts)
          (Pays-add_count av d 0 ds r p fresh le fits (rw e at (sound (r - d * 0))))
    | inr (inl e) ↦ rw (e, try_counts) tt
    | inr (inr e) ↦ rw (e, try_counts) tt
  ]
  try_counts-PaysIfFound r (suc c) sound fresh le fits =
      elim (Search-cases (next (r - d * suc c))) [
        | inl (p, e) ↦
            rw (e, try_counts)
              (Pays-add_count av d (suc c) ds r p fresh le fits (rw e at (sound (r - d * suc c))))
        | inr (inl e) ↦
            rw (e, try_counts)
              (try_counts-PaysIfFound r c sound fresh (omega arith)
                (mul_le d c (suc c) r (omega arith) fits))
        | inr (inr e) ↦ rw (e, try_counts) tt
      ]

div_fits : (d r m : ℕ) → m ≤ r / d → 0 < d → d * m ≤ r
div_fits d r m h p = grind arith

done_PaysIfFound :
    (av : Dict ℕ) (ds : List ℕ) (r : ℕ) (s : Search)
    → ((r == 0) ≡ false → PaysIfFound av ds r s)
    → PaysIfFound av ds r (if r == 0 then found [] else s)
done_PaysIfFound av ds r s h = elim (Bool-cases (r == 0)) [
  | inl e ↦ rw e (rw ((==_iff r 0).0 e) (Pays-nil av ds))
  | inr e ↦ rw e (h e)
]

pub backtrack-PaysIfFound :
    (av : Dict ℕ) (ds : List ℕ) (r : ℕ) → IsDistinct ds → PaysIfFound av ds r (backtrack av ds r)
unfolding backtrack
backtrack-PaysIfFound av [] r h = done_PaysIfFound av [] r exhausted (λ e. tt)
backtrack-PaysIfFound av (d ∷ ds) r h = done_PaysIfFound av (d ∷ ds) r _ λ e.
    elim (Bool-cases (d == 0)) [
      | inl z ↦ rw z tt
      | inr p ↦ rw p (
          try_counts-PaysIfFound av (λ s. backtrack av ds s) d ds r (min (lookup_or d 0 av) (r / d))
            (λ s. backtrack-PaysIfFound av ds s h.1) h.0 (omega arith)
            (div_fits d r _ (omega arith) (ground arith)))
    ]

-- The denominations that the search tries are the free ones, each once.
pub contains-insert_desc :
    (k d : ℕ) (ds : List ℕ) → contains k (insert_desc d ds) ≡ (k == d || contains k ds)
unfolding insert_desc
contains-insert_desc k d [] = refl
contains-insert_desc k d (e ∷ es) = ground (arith, contains-insert_desc k d es)

pub insert_desc-IsDistinct :
    (d : ℕ) (ds : List ℕ) → contains d ds ≡ false → IsDistinct ds → IsDistinct (insert_desc d ds)
unfolding insert_desc
insert_desc-IsDistinct d [] h k = (refl, tt)
insert_desc-IsDistinct d (e ∷ es) h k =
    ground (arith, insert_desc-IsDistinct d es, contains-insert_desc e d es)

contains-denominations :
    (k : ℕ) (av : Dict ℕ) → lookup k av ≡ none → contains k (denominations av) ≡ false
unfolding denominations
contains-denominations k [] h = refl
contains-denominations k ((d, c) ∷ av) h =
    ground (arith, contains-denominations k av, contains-insert_desc k d (denominations av))

pub denominations-IsDistinct : (av : Dict ℕ) → IsDict av → IsDistinct (denominations av)
unfolding denominations
denominations-IsDistinct [] h = tt
denominations-IsDistinct ((d, c) ∷ av) h = ground (
  arith,
  denominations-IsDistinct av h.1,
  insert_desc-IsDistinct d (denominations av),
  contains-denominations d av h.0,
)

lookup-available :
    (k : ℕ) (r : Dict ℕ) (acc : Dict ℤ)
    → lookup k acc ≡ none
    → lookup k (available_from r acc) ≡ none
lookup-available k r [] h = refl
lookup-available k r ((d, c) ∷ acc) h = ground (arith, lookup-available k r acc)

available_from-IsDict : (r : Dict ℕ) (acc : Dict ℤ) → IsDict acc → IsDict (available_from r acc)
available_from-IsDict r [] h = tt
available_from-IsDict r ((d, c) ∷ acc) h =
    (lookup-available d r acc h.0, available_from-IsDict r acc h.1)

pub available_counts-IsDict :
    (m : MoneyInventory) → IsDict m.accounting → IsDict (available_counts m)
unfolding available_counts
available_counts-IsDict m h = available_from-IsDict m.reserved m.accounting h

-- A payout plan is worth exactly the target, takes no more pieces of any denomination than are
-- free, and lists each denomination once.
pub plan_change_sound :
    (target : ℕ) (m : MoneyInventory) {p : Plan}
    → IsDict m.accounting
    → plan_change target m ≡ found p
    → (plan_total p ≡ target)
      × ((d : ℕ) → count_of d p ≤ lookup_or d 0 (available_counts m))
      × IsDict p
unfolding plan_change plan_from
plan_change_sound target m {p} h e =
    let av = available_counts m in
    let pays : PaysIfFound av (denominations av) target (plan_change target m) =
      done_PaysIfFound av (denominations av) target _ (λ k.
        backtrack-PaysIfFound av (denominations av) target
          (denominations-IsDistinct av (available_counts-IsDict m h))) in
    let sound : Pays av (denominations av) target p = rw e at pays in
    (sound.pays_exactly, sound.pays_available, sound.pays_once)
