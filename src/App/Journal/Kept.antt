-- ===== src/App/Journal/Kept.antt =====
-- Which records the journal of app/journal.py holds, against those that the trace asks for.
use flower_vending_system.Prelude.{
  Bool, true, false, List, [], ◌∷◌, ◌++◌, ◌≡◌, ◌⊎◌, inl, inr, refl, sym, arith, Bool-cases,
}
use flower_vending_system.App.World.{JournalEntry, Effect, journaled, called, published}
use flower_vending_system.App.Journal.{is_outcome, same_kind, same_key, has_key, append_entry}
use flower_vending_system.App.Journal.Resolution.{Has, Agree, same_action-Agree, Agree-same_action}

-- Two records have one idempotency key: they agree on the transaction, the action and the step,
-- and both or neither are outcomes.
abbrev pub HaveOneKey : JournalEntry → JournalEntry → Type 0
HaveOneKey a b = Agree a b × (is_outcome a ≡ is_outcome b)

-- Some row has the key of the record.
abbrev pub IsKept : JournalEntry → List JournalEntry → Type 0
IsKept e rows = (x : JournalEntry) × Has x rows × HaveOneKey e x

-- Every record that the trace asks for has its key in the journal.
abbrev pub AreKept : List Effect → List JournalEntry → Type 0
AreKept [] rows = Unit {0}
AreKept (journaled e ∷ tr) rows = IsKept e rows × AreKept tr rows
AreKept (called c ∷ tr) rows = AreKept tr rows
AreKept (published e ∷ tr) rows = AreKept tr rows

-- The trace asks for the record.
abbrev pub Asks : List Effect → JournalEntry → Type 0
Asks [] x = ⊥
Asks (journaled e ∷ tr) x = (x ≡ e) ⊎ Asks tr x
Asks (called c ∷ tr) x = Asks tr x
Asks (published e ∷ tr) x = Asks tr x

-- No row of the list has the key of the record.
abbrev pub IsNew : JournalEntry → List JournalEntry → Type 0
IsNew e [] = Unit {0}
IsNew e (x ∷ xs) = ¬ HaveOneKey e x × IsNew e xs

-- No two rows have one key.
abbrev pub AreDistinct : List JournalEntry → Type 0
AreDistinct [] = Unit {0}
AreDistinct (x ∷ xs) = IsNew x xs × AreDistinct xs

kinds : (a b : Bool) → same_kind a b ≡ true → a ≡ b
kinds true b h = ground arith
kinds false true h = ground arith
kinds false false h = refl

same_kind_self : (a : Bool) → same_kind a a ≡ true
same_kind_self true = refl
same_kind_self false = refl

same_key-HaveOneKey : (a b : JournalEntry) → same_key a b ≡ true → HaveOneKey a b
unfolding same_key
same_key-HaveOneKey a b h =
    (same_action-Agree a b (ground arith), kinds (is_outcome a) (is_outcome b) (ground arith))

HaveOneKey-same_key : (a b : JournalEntry) → HaveOneKey a b → same_key a b ≡ true
unfolding same_key
HaveOneKey-same_key a b (g, k) = rw (Agree-same_action a b g, k, same_kind_self (is_outcome b)) refl

sym-HaveOneKey : (a b : JournalEntry) → HaveOneKey a b → HaveOneKey b a
sym-HaveOneKey a b ((i, j, k), o) = ((sym i, sym j, sym k), sym o)

has_key-IsKept :
    (e : JournalEntry) (rows : List JournalEntry) → has_key e rows ≡ true → IsKept e rows
unfolding has_key
has_key-IsKept e [] h = ground arith
has_key-IsKept e (x ∷ xs) h = elim (Bool-cases (same_key e x)) [
  | inl s ↦ (x, inl refl, same_key-HaveOneKey e x s)
  | inr s ↦ let (y, m, k) = has_key-IsKept e xs (rw s at h) in (y, inr m, k)
]

has_key-IsNew :
    (e : JournalEntry) (rows : List JournalEntry) → has_key e rows ≡ false → IsNew e rows
unfolding has_key
has_key-IsNew e [] h = tt
has_key-IsNew e (x ∷ xs) h =
    (λ k. ground (arith, HaveOneKey-same_key e x k), has_key-IsNew e xs (ground arith))

Has-snoc : (x e : JournalEntry) (rows : List JournalEntry) → Has x rows → Has x (rows ++ (e ∷ []))
Has-snoc x e [] h = elim h [ ]
Has-snoc x e (y ∷ ys) (inl p) = inl p
Has-snoc x e (y ∷ ys) (inr h) = inr (Has-snoc x e ys h)

snoc-Has : (e : JournalEntry) (rows : List JournalEntry) → Has e (rows ++ (e ∷ []))
snoc-Has e [] = inl refl
snoc-Has e (y ∷ ys) = inr (snoc-Has e ys)

snoc-IsNew :
    (x e : JournalEntry) (rows : List JournalEntry)
    → ¬ HaveOneKey x e
    → IsNew x rows
    → IsNew x (rows ++ (e ∷ []))
snoc-IsNew x e [] n h = (n, tt)
snoc-IsNew x e (y ∷ ys) n (h, hs) = (h, snoc-IsNew x e ys n hs)

snoc-AreDistinct :
    (e : JournalEntry) (rows : List JournalEntry)
    → IsNew e rows
    → AreDistinct rows
    → AreDistinct (rows ++ (e ∷ []))
snoc-AreDistinct e [] n h = (tt, tt)
snoc-AreDistinct e (x ∷ xs) (n, ns) (h, hs) =
    (snoc-IsNew x e xs (λ k. n (sym-HaveOneKey x e k)) h, snoc-AreDistinct e xs ns hs)

pub append_entry-AreDistinct :
    (e : JournalEntry) (rows : List JournalEntry)
    → AreDistinct rows
    → AreDistinct (append_entry e rows)
unfolding append_entry
append_entry-AreDistinct e rows h = elim (Bool-cases (has_key e rows)) [
  | inl k ↦ rw k h
  | inr k ↦ rw k (snoc-AreDistinct e rows (has_key-IsNew e rows k) h)
]

Has-append_entry :
    (x e : JournalEntry) (rows : List JournalEntry) → Has x rows → Has x (append_entry e rows)
unfolding append_entry
Has-append_entry x e rows h = elim (Bool-cases (has_key e rows)) [
  | inl k ↦ rw k h
  | inr k ↦ rw k (Has-snoc x e rows h)
]

pub append_entry-IsKept :
    (e : JournalEntry) (rows : List JournalEntry) → IsKept e (append_entry e rows)
unfolding append_entry
append_entry-IsKept e rows = elim (Bool-cases (has_key e rows)) [
  | inl k ↦ rw k (has_key-IsKept e rows k)
  | inr k ↦ rw k (e, snoc-Has e rows, ((refl, refl, refl), refl))
]

pub append_entry-AreKept :
    (e : JournalEntry) (tr : List Effect) (rows : List JournalEntry)
    → AreKept tr rows
    → AreKept tr (append_entry e rows)
append_entry-AreKept e [] rows h = tt
append_entry-AreKept e (journaled x ∷ tr) rows ((y, m, k), hs) =
    ((y, Has-append_entry y e rows m, k), append_entry-AreKept e tr rows hs)
append_entry-AreKept e (called c ∷ tr) rows h = append_entry-AreKept e tr rows h
append_entry-AreKept e (published p ∷ tr) rows h = append_entry-AreKept e tr rows h

-- Every row was in the journal at the start, or the trace asks for it.
abbrev pub ComeFrom : List JournalEntry → List Effect → List JournalEntry → Type 0
ComeFrom start tr [] = Unit {0}
ComeFrom start tr (x ∷ xs) = (Has x start ⊎ Asks tr x) × ComeFrom start tr xs

-- Every record of the first list is in the second.
abbrev pub AreIn : List JournalEntry → List JournalEntry → Type 0
AreIn [] rows = Unit {0}
AreIn (x ∷ xs) rows = Has x rows × AreIn xs rows

ComeFrom-asked :
    (start : List JournalEntry) (e : JournalEntry) (tr : List Effect) (rows : List JournalEntry)
    → ComeFrom start tr rows
    → ComeFrom start (journaled e ∷ tr) rows
ComeFrom-asked start e tr [] h = tt
ComeFrom-asked start e tr (x ∷ xs) (inl p, hs) = (inl p, ComeFrom-asked start e tr xs hs)
ComeFrom-asked start e tr (x ∷ xs) (inr p, hs) = (inr (inr p), ComeFrom-asked start e tr xs hs)

ComeFrom-snoc :
    (start : List JournalEntry) (e : JournalEntry) (tr : List Effect) (rows : List JournalEntry)
    → ComeFrom start (journaled e ∷ tr) rows
    → ComeFrom start (journaled e ∷ tr) (rows ++ (e ∷ []))
ComeFrom-snoc start e tr [] h = (inr (inl refl), tt)
ComeFrom-snoc start e tr (x ∷ xs) (h, hs) = (h, ComeFrom-snoc start e tr xs hs)

pub append_entry-ComeFrom :
    (start : List JournalEntry) (e : JournalEntry) (tr : List Effect) (rows : List JournalEntry)
    → ComeFrom start tr rows
    → ComeFrom start (journaled e ∷ tr) (append_entry e rows)
unfolding append_entry
append_entry-ComeFrom start e tr rows h = elim (Bool-cases (has_key e rows)) [
  | inl k ↦ rw k (ComeFrom-asked start e tr rows h)
  | inr k ↦ rw k (ComeFrom-snoc start e tr rows (ComeFrom-asked start e tr rows h))
]

pub append_entry-AreIn :
    (e : JournalEntry) (start rows : List JournalEntry)
    → AreIn start rows
    → AreIn start (append_entry e rows)
append_entry-AreIn e [] rows h = tt
append_entry-AreIn e (x ∷ xs) rows (h, hs) =
    (Has-append_entry x e rows h, append_entry-AreIn e xs rows hs)
