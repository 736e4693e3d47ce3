-- ===== src/Persistence/Journal/Open.antt =====
-- infrastructure/persistence/journal.py: which transactions `unresolved_transaction_ids` lists.
use flower_vending_system.Prelude.{
  Bool-cases, inl, inr, sym, ◌≢◌, ◌↔◌, ◌⊎◌, false, ℕ, Bool, true, false, ◌||◌, ◌&&◌, Option, none,
  some, List, [], ◌∷◌, ◌==◌, ◌≡◌, refl, ◌∙◌, contains, arith, ==_iff,
}
use flower_vending_system.App.Startup.{insert_sorted}
use flower_vending_system.Domain.Statuses.{TransactionStatus}
use flower_vending_system.Persistence.Journal.{
  Row, sql_equal, is_open_status, place_open, unresolved_transaction_ids,
}

-- No status, or one that is neither COMPLETED nor CANCELLED.
abbrev pub Unfinished : Option TransactionStatus → Type 0
Unfinished none = Unit {0}
Unfinished (some s) = (s ≢ TransactionStatus.completed) × (s ≢ TransactionStatus.cancelled)

-- Some row of the transaction was written while it was unfinished, or without its status.
abbrev pub WasOpen : ℕ → List Row → Type 0
WasOpen tid [] = ⊥
WasOpen tid (r ∷ rs) =
    ((r.transaction_id ≡ some tid) × Unfinished r.transaction_status) ⊎ WasOpen tid rs

closed_status :
    (s : TransactionStatus)
    → is_open_status (some s) ≡ false
    → (s ≡ TransactionStatus.completed) ⊎ (s ≡ TransactionStatus.cancelled)
closed_status s h = ground arith

false-ne-true : false ≡ true → ⊥
false-ne-true h = cc

open-Unfinished : (o : Option TransactionStatus) → is_open_status o ≡ true → Unfinished o
open-Unfinished none h = tt
open-Unfinished (some s) h = ((λ e. false-ne-true (rw e at h)), (λ e. false-ne-true (rw e at h)))

Unfinished-open : (o : Option TransactionStatus) → Unfinished o → is_open_status o ≡ true
Unfinished-open none u = refl
Unfinished-open (some s) u = elim (Bool-cases (is_open_status (some s))) [
  | inl e ↦ e
  | inr e ↦ elim (closed_status s e) [ inl c ↦ absurd (u.0 c) | inr c ↦ absurd (u.1 c) ]
]

same_id : (tid : ℕ) (o : Option ℕ) → (sql_equal (some tid) o ≡ true) ↔ (o ≡ some tid)
same_id tid none = (λ h. cc, λ h. cc)
same_id tid (some a) = ground (arith, ==_iff tid a)

contains-insert_sorted :
    (a tid : ℕ) (ids : List ℕ) → contains a (insert_sorted tid ids) ≡ ((a == tid) || contains a ids)
unfolding insert_sorted
contains-insert_sorted a tid [] = refl
contains-insert_sorted a tid (x ∷ xs) =
    ground (arith, contains-insert_sorted a tid xs, (==_iff tid x).0)

contains-place_open :
    (a : ℕ) (o : Option ℕ) (b : Bool) (ids : List ℕ)
    → contains a (place_open o b ids) ≡ ((sql_equal (some a) o && b) || contains a ids)
unfolding place_open
contains-place_open a none b ids = refl
contains-place_open a (some tid) true ids = contains-insert_sorted a tid ids ∙ ground arith
contains-place_open a (some tid) false ids = ground arith

both : (a b : Bool) → (a && b) ≡ true → (a ≡ true) × (b ≡ true)
both true true h = (refl, refl)
both true false h = cc
both false b h = cc

either : (a b : Bool) → (a || b) ≡ true → (a ≡ true) ⊎ (b ≡ true)
either true b h = inl refl
either false b h = inr h

contains_head :
    (tid : ℕ) (r : Row) (rs : List Row)
    → contains tid (unresolved_transaction_ids (r ∷ rs)) ≡ (
        (sql_equal (some tid) r.transaction_id && is_open_status r.transaction_status)
        || contains tid (unresolved_transaction_ids rs))
unfolding unresolved_transaction_ids
contains_head tid r rs = contains-place_open tid r.transaction_id _ _

listed-WasOpen :
    (tid : ℕ) (rs : List Row) → contains tid (unresolved_transaction_ids rs) ≡ true → WasOpen tid rs
unfolding unresolved_transaction_ids
listed-WasOpen tid [] h = cc
listed-WasOpen tid (r ∷ rs) h = elim (either _ _ (sym (contains_head tid r rs) ∙ h)) [
  | inl e ↦
      let (same, still) = both _ _ e in
      inl ((same_id tid r.transaction_id).0 same, open-Unfinished r.transaction_status still)
  | inr e ↦ inr (listed-WasOpen tid rs e)
]

WasOpen-listed :
    (tid : ℕ) (rs : List Row) → WasOpen tid rs → contains tid (unresolved_transaction_ids rs) ≡ true
WasOpen-listed tid [] h = elim h [ ]
WasOpen-listed tid (r ∷ rs) (inl (same, still)) =
    contains_head tid r rs
    ∙ rw ((same_id tid r.transaction_id).1 same, Unfinished-open r.transaction_status still) refl
WasOpen-listed tid (r ∷ rs) (inr h) =
    contains_head tid r rs ∙ rw (WasOpen-listed tid rs h) (or_true _)
  where
    or_true : (a : Bool) → (a || true) ≡ true
    or_true true = refl
    or_true false = refl

-- A transaction is listed as unresolved exactly if some row of it was written while its status was
-- neither COMPLETED nor CANCELLED, or without a status: also if a later row says that it was
-- completed or cancelled.
pub unresolved_transaction_ids_lem :
    (tid : ℕ) (rs : List Row)
    → (contains tid (unresolved_transaction_ids rs) ≡ true → WasOpen tid rs)
      × (WasOpen tid rs → contains tid (unresolved_transaction_ids rs) ≡ true)
unresolved_transaction_ids_lem tid rs = (listed-WasOpen tid rs, WasOpen-listed tid rs)
