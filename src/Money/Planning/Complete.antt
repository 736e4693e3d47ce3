-- ===== src/Money/Planning/Complete.antt =====
-- The search misses no payout: payments/change_manager.py, `plan_change`.
use flower_vending_system.Prelude.{
  ℕ, zero, suc, ◌+◌, ◌-◌, ◌*◌, ◌/◌, ◌≤◌, ◌<◌, min, false, none, some, List, [], ◌∷◌, ◌≡◌, refl,
  arith, ◌==◌, Bool-cases, inl, inr, ==_iff, ap, sym, ◌∙◌,
}
use mathlib.Core.Path.{subst}
use native.Mathlib.Decide.{dec_le}
use flower_vending_system.Prelude.Int.{ℤ}
use flower_vending_system.Prelude.Dict.{Dict, lookup, lookup_or}
use flower_vending_system.Domain.Reserve.{Plan}
use flower_vending_system.Money.Counts.{IsDict, IsPositive, worth}
use flower_vending_system.Money.Inventory.{MoneyInventory, available_from, available_counts}
use flower_vending_system.Money.Planning.{
  Search, found, exhausted, raised, try_counts, Search-cases, backtrack, insert_desc, denominations,
  plan_from, plan_change,
}
use flower_vending_system.Money.Planning.Sound.{available_counts-IsDict}

abbrev pub IsFound : Search → Type 0
IsFound s = (p : Plan) × (s ≡ found p)

-- `s` gives an answer, and a plan if `P`.
abbrev Answers : Search → Type 0 → Type 0
Answers (found p) P = Unit {0}
Answers exhausted P = ¬ P
Answers raised P = ⊥

none_of : (x : ℕ) → x ≤ 0 → x ≡ 0
none_of x h = omega arith

positive : (d : ℕ) → 0 < d → (d == 0) ≡ false
positive d h = ground arith

Answers_mono : {P Q : Type 0} (s : Search) → (Q → P) → Answers s P → Answers s Q
Answers_mono (found p) f h = tt
Answers_mono exhausted f h = λ b. h (f b)
Answers_mono raised f h = h

rest_worth : (d x c w r : ℕ) → x ≡ c → d * x + w ≡ r → w ≡ r - d * c
rest_worth d x c w r e h = omega (arith, h, ap (λ (t : ℕ). d * t) e)

count_fits : (d x w r : ℕ) → 0 < d → d * x + w ≡ r → x ≤ r / d
count_fits d x w r p h = grind arith

module _ (q : ℕ → ℕ) (av : Dict ℕ) (within : (d : ℕ) → q d ≤ lookup_or d 0 av) where
  -- With `q d` among the counts that are tried, the search for the rest decides.
  try_counts-Answers :
      (next : ℕ → Search) (d : ℕ) (ds : List ℕ) (r c : ℕ)
      → ((s : ℕ) → Answers (next s) (worth q ds ≡ s))
      → Answers (try_counts next d r c) ((q d ≤ c) × (d * q d + worth q ds ≡ r))
  unfolding try_counts
  try_counts-Answers next d ds r zero later = elim (Search-cases (next (r - d * 0))) [
    | inl (p, e) ↦ rw (e, try_counts) tt
    | inr (inl e) ↦
        rw (e, try_counts)
          (λ b. (rw e at (later (r - d * 0))) (rest_worth d (q d) 0 _ r (omega (arith, b.0)) b.1))
    | inr (inr e) ↦ absurd (rw e at (later (r - d * 0)))
  ]
  try_counts-Answers next d ds r (suc c) later = elim (Search-cases (next (r - d * suc c))) [
    | inl (p, e) ↦ rw (e, try_counts) tt
    | inr (inl e) ↦
        rw (e, try_counts)
          (Answers_mono (try_counts next d r c)
            (λ b. elim (dec_le (q d) c) [
              | yes le ↦ (le, b.1)
              | no gt ↦ absurd (
                  (rw e at (later (r - d * suc c)))
                    (rest_worth d (q d) (suc c) _ r (omega (arith, b.0, gt)) b.1))
            ])
            (try_counts-Answers next d ds r c later))
    | inr (inr e) ↦ absurd (rw e at (later (r - d * suc c)))
  ]

  backtrack-Answers :
      (ds : List ℕ) (r : ℕ) → IsPositive ds → Answers (backtrack av ds r) (worth q ds ≡ r)
  unfolding backtrack worth
  backtrack-Answers [] r h = elim (Bool-cases (r == 0)) [
    | inl e ↦ rw e tt
    | inr e ↦ rw e (λ z. ground arith)
  ]
  backtrack-Answers (d ∷ ds) r h = elim (Bool-cases (r == 0)) [
    | inl e ↦ rw e tt
    | inr e ↦ rw e (
        rw (positive d h.0) (
          Answers_mono (try_counts (λ s. backtrack av ds s) d r (min (lookup_or d 0 av) (r / d)))
            (λ b. (omega (arith, within d, count_fits d (q d) _ r h.0 b), b))
            (try_counts-Answers (λ s. backtrack av ds s) d ds r _
              (λ s. backtrack-Answers ds s h.1))))
  ]

worth-insert_desc :
    (q : ℕ → ℕ) (d : ℕ) (ds : List ℕ) → worth q (insert_desc d ds) ≡ d * q d + worth q ds
unfolding worth insert_desc
worth-insert_desc q d [] = refl
worth-insert_desc q d (e ∷ es) = ground (arith, worth-insert_desc q d es)

insert_desc-IsPositive :
    (d : ℕ) (ds : List ℕ) → 0 < d → IsPositive ds → IsPositive (insert_desc d ds)
unfolding insert_desc
insert_desc-IsPositive d [] h k = (h, tt)
insert_desc-IsPositive d (e ∷ es) h k = ground (arith, insert_desc-IsPositive d es h)

-- The keys of a dict.
abbrev pub keys : {V : Type 0} → Dict V → List ℕ
keys [] = []
keys ((k, v) ∷ d) = k ∷ keys d

denominations-IsPositive : (av : Dict ℕ) → IsPositive (keys av) → IsPositive (denominations av)
unfolding denominations
denominations-IsPositive [] h = tt
denominations-IsPositive ((d, c) ∷ av) h =
    ground (arith, denominations-IsPositive av h.1, insert_desc-IsPositive d (denominations av) h.0)

IsFound-of : {P : Type 0} (s : Search) → P → Answers s P → IsFound s
IsFound-of (found p) h a = (p, refl)
IsFound-of exhausted h a = absurd (a h)
IsFound-of raised h a = absurd a

-- Every entry has at least the count that `q` asks of its key.
abbrev EntriesWithin : (ℕ → ℕ) → Dict ℕ → Type 0
EntriesWithin q [] = Unit {0}
EntriesWithin q ((k, c) ∷ av) = (q k ≤ c) × EntriesWithin q av

worth-denominations :
    (q : ℕ → ℕ) (av : Dict ℕ) → EntriesWithin q av → worth q (denominations av) ≡ worth q (keys av)
unfolding denominations worth
worth-denominations q [] h = refl
worth-denominations q ((d, zero) ∷ av) h =
    omega (arith, worth-denominations q av h.1, ap (λ (t : ℕ). d * t) (none_of (q d) h.0))
worth-denominations q ((d, suc c) ∷ av) h =
    ground (arith, worth-denominations q av h.1, worth-insert_desc q d (denominations av))

lookup_or-some : (k c : ℕ) (d : Dict ℕ) → lookup k d ≡ some c → lookup_or k 0 d ≡ c
lookup_or-some k c [] e = cc
lookup_or-some k c ((j, x) ∷ d) e = ground (arith, lookup_or-some k c d)

lookup-tail :
    (k x j c : ℕ) (d : Dict ℕ)
    → lookup k d ≡ none
    → lookup j d ≡ some c
    → lookup j ((k, x) ∷ d) ≡ some c
lookup-tail k x j c d h e = elim (Bool-cases (j == k)) [
  | inl same ↦ ground (arith, ap (λ (i : ℕ). lookup i d) ((==_iff j k).0 same))
  | inr other ↦ rw other e
]

module _ (q : ℕ → ℕ) (full : Dict ℕ) (within : (d : ℕ) → q d ≤ lookup_or d 0 full) where
  entries_within :
      (sub : Dict ℕ)
      → IsDict sub
      → ((k c : ℕ) → lookup k sub ≡ some c → lookup k full ≡ some c)
      → EntriesWithin q sub
  entries_within [] h sees = tt
  entries_within ((k, c) ∷ sub) h sees = (
    omega (arith, within k, lookup_or-some k c full (sees k c (ground arith))),
    entries_within sub h.1 (λ j x e. sees j x (lookup-tail k c j x sub h.0 e)),
  )

keys-available : (r : Dict ℕ) (acc : Dict ℤ) → keys (available_from r acc) ≡ keys acc
keys-available r [] = refl
keys-available r ((d, c) ∷ acc) = ap (λ (ks : List ℕ). d ∷ ks) (keys-available r acc)

-- If some choice of free pieces is worth the target, a plan is found, and the search never
-- divides by zero; every denomination in the books is taken to be positive.
pub plan_change_complete :
    (target : ℕ) (m : MoneyInventory) (q : ℕ → ℕ)
    → IsDict m.accounting
    → IsPositive (keys m.accounting)
    → ((d : ℕ) → q d ≤ lookup_or d 0 (available_counts m))
    → worth q (keys m.accounting) ≡ target
    → IsFound (plan_change target m)
unfolding plan_change plan_from available_counts
plan_change_complete target m q h pos within e =
    let av = available_counts m in
    let ks : keys av ≡ keys m.accounting = keys-available m.reserved m.accounting in
    let total : worth q (denominations av) ≡ target =
      worth-denominations q av
        (entries_within q av within av (available_counts-IsDict m h) (λ k c e. e))
      ∙ ap (worth q) ks
      ∙ e in
    elim (Bool-cases (target == 0)) [
      | inl z ↦ ([], rw z)
      | inr z ↦ rw z (
          IsFound-of _ total (
            backtrack-Answers q av within (denominations av) target
              (denominations-IsPositive av (subst IsPositive (sym ks) pos))))
    ]
