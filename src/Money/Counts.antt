-- ===== src/Money/Counts.antt =====
-- Counts by denomination as functions: what a dict of counts says, and what a plan is worth.
use flower_vending_system.Prelude.{
  ℕ, ◌+◌, ◌*◌, ◌<◌, false, none, List, [], ◌∷◌, ◌≡◌, refl, arith, contains,
}
use flower_vending_system.Prelude.Dict.{Dict, lookup, lookup_or, insert, lookup-insert}
use flower_vending_system.Domain.Reserve.{Plan, plan_total}

-- `counts.get(denomination, 0)`
abbrev pub count_of : ℕ → Plan → ℕ
count_of d p = lookup_or d 0 p

-- No key is listed twice, as in every Python dict.
abbrev pub IsDict : {V : Type 0} → Dict V → Type 0
IsDict [] = Unit {0}
IsDict ((k, _) ∷ d) = (lookup k d ≡ none) × IsDict d

pub lookup_or-none {ℓ} :
    {V : Type ℓ} (k : ℕ) (z : V) (d : Dict V) → lookup k d ≡ none → lookup_or k z d ≡ z
lookup_or-none k z [] h = refl
lookup_or-none k z ((j, v) ∷ d) h = ground (arith, lookup_or-none k z d)

pub insert-IsDict : {V : Type 0} (k : ℕ) (v : V) (d : Dict V) → IsDict d → IsDict (insert k v d)
insert-IsDict k v [] h = (refl, tt)
insert-IsDict k v ((j, x) ∷ d) h = ground (arith, insert-IsDict k v d h.1, lookup-insert j k v d)

pub plan_total-insert :
    (k c : ℕ) (p : Plan) → lookup k p ≡ none → plan_total (insert k c p) ≡ k * c + plan_total p
unfolding plan_total
plan_total-insert k c [] h = refl
plan_total-insert k c ((j, x) ∷ p) h = grind (arith, plan_total-insert k c p)

-- Each denomination of `ds` is listed once.
abbrev pub IsDistinct : List ℕ → Type 0
IsDistinct [] = Unit {0}
IsDistinct (d ∷ ds) = (contains d ds ≡ false) × IsDistinct ds

abbrev pub IsPositive : List ℕ → Type 0
IsPositive [] = Unit {0}
IsPositive (d ∷ ds) = (0 < d) × IsPositive ds

-- What `q d` pieces of each denomination of `ds` are worth.
unfoldable pub worth : (ℕ → ℕ) → List ℕ → ℕ
worth q [] = 0
worth q (d ∷ ds) = d * q d + worth q ds
