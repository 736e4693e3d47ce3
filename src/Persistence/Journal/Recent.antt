-- ===== src/Persistence/Journal/Recent.antt =====
-- infrastructure/persistence/journal.py: what `list_recent` lists.
use flower_vending_system.Prelude.{
  ℕ, zero, suc, ◌≤◌, true, false, List, [], ◌∷◌, ◌≡◌, refl, sym, ap, ◌∙◌, ◌⊎◌, inl, inr, Bool-cases,
  arith, leb, leb→le, length,
}
use flower_vending_system.Persistence.Journal.{
  Row, is_event, place_recent, recent_from, take_rows, list_recent,
}

abbrev pub HasRow : Row → List Row → Type 0
HasRow r [] = ⊥
HasRow r (x ∷ xs) = (r ≡ x) ⊎ HasRow r xs

-- No row is newer than `r`.
abbrev NotAfter : Row → List Row → Type 0
NotAfter r [] = Unit {0}
NotAfter r (x ∷ xs) = (x.created_at ≤ r.created_at) × NotAfter r xs

-- The newest is first.
abbrev pub IsNewestFirst : List Row → Type 0
IsNewestFirst [] = Unit {0}
IsNewestFirst (x ∷ xs) = NotAfter x xs × IsNewestFirst xs

NotAfter-trans :
    (a b : Row) (xs : List Row) → b.created_at ≤ a.created_at → NotAfter b xs → NotAfter a xs
NotAfter-trans a b [] h n = tt
NotAfter-trans a b (x ∷ xs) h n = (omega (arith, n.0), NotAfter-trans a b xs h n.1)

place_recent-NotAfter :
    (a r : Row) (xs : List Row)
    → r.created_at ≤ a.created_at
    → NotAfter a xs
    → NotAfter a (place_recent r xs)
unfolding place_recent
place_recent-NotAfter a r [] h n = (h, tt)
place_recent-NotAfter a r (x ∷ xs) h n = elim (Bool-cases (leb x.created_at r.created_at)) [
  | inl e ↦ rw e (h, n)
  | inr e ↦ rw e (n.0, place_recent-NotAfter a r xs h n.1)
]

leb-false : (a b : ℕ) → leb a b ≡ false → b ≤ a
leb-false a b h = ground arith

place_recent-IsNewestFirst :
    (r : Row) (xs : List Row) → IsNewestFirst xs → IsNewestFirst (place_recent r xs)
unfolding place_recent
place_recent-IsNewestFirst r [] h = (tt, tt)
place_recent-IsNewestFirst r (x ∷ xs) h = elim (Bool-cases (leb x.created_at r.created_at)) [
  | inl e ↦
      let earlier = leb→le x.created_at r.created_at e in
      rw e ((earlier, NotAfter-trans r x xs earlier h.0), h)
  | inr e ↦ rw e (
    place_recent-NotAfter x r xs (leb-false x.created_at r.created_at e) h.0,
    place_recent-IsNewestFirst r xs h.1,
  )
]

recent_from-IsNewestFirst :
    (rs newest : List Row) → IsNewestFirst newest → IsNewestFirst (recent_from newest rs)
unfolding recent_from
recent_from-IsNewestFirst [] newest h = h
recent_from-IsNewestFirst (r ∷ rs) newest h = elim (Bool-cases (is_event r)) [
  | inl e ↦ rw e (recent_from-IsNewestFirst rs _ (place_recent-IsNewestFirst r newest h))
  | inr e ↦ rw e (recent_from-IsNewestFirst rs newest h)
]

take_rows-NotAfter : (n : ℕ) (a : Row) (xs : List Row) → NotAfter a xs → NotAfter a (take_rows n xs)
unfolding take_rows
take_rows-NotAfter zero a xs h = tt
take_rows-NotAfter (suc n) a [] h = tt
take_rows-NotAfter (suc n) a (x ∷ xs) h = (h.0, take_rows-NotAfter n a xs h.1)

take_rows-IsNewestFirst :
    (n : ℕ) (xs : List Row) → IsNewestFirst xs → IsNewestFirst (take_rows n xs)
unfolding take_rows
take_rows-IsNewestFirst zero xs h = tt
take_rows-IsNewestFirst (suc n) [] h = tt
take_rows-IsNewestFirst (suc n) (x ∷ xs) h =
    (take_rows-NotAfter n x xs h.0, take_rows-IsNewestFirst n xs h.1)

-- `q` is `r` or one of the rows.
place_recent-HasRow :
    (q r : Row) (xs : List Row)
    → (HasRow q (place_recent r xs) → (q ≡ r) ⊎ HasRow q xs)
      × ((q ≡ r) ⊎ HasRow q xs → HasRow q (place_recent r xs))
unfolding place_recent
place_recent-HasRow q r [] = (λ h. h, λ h. h)
place_recent-HasRow q r (x ∷ xs) =
    ground (arith, (place_recent-HasRow q r xs).0, (place_recent-HasRow q r xs).1)

recent_from-only :
    (q : Row) (rs newest : List Row)
    → HasRow q (recent_from newest rs)
    → HasRow q newest ⊎ (HasRow q rs × (is_event q ≡ true))
unfolding recent_from
recent_from-only q [] newest h = inl h
recent_from-only q (r ∷ rs) newest h = elim (Bool-cases (is_event r)) [
  | inl e ↦ elim (recent_from-only q rs (place_recent r newest) (rw e at h)) [
    | inl k ↦ elim ((place_recent-HasRow q r newest).0 k) [
      | inl same ↦ inr (inl same, ap is_event same ∙ e)
      | inr old ↦ inl old
    ]
    | inr k ↦ inr (inr k.0, k.1)
  ]
  | inr e ↦ elim (recent_from-only q rs newest (rw e at h)) [
    | inl k ↦ inl k
    | inr k ↦ inr (inr k.0, k.1)
  ]
]

recent_from-keeps :
    (q : Row) (rs newest : List Row) → HasRow q newest → HasRow q (recent_from newest rs)
unfolding recent_from
recent_from-keeps q [] newest h = h
recent_from-keeps q (r ∷ rs) newest h = elim (Bool-cases (is_event r)) [
  | inl e ↦ rw e (recent_from-keeps q rs _ ((place_recent-HasRow q r newest).1 (inr h)))
  | inr e ↦ rw e (recent_from-keeps q rs newest h)
]

recent_from-all :
    (q : Row) (rs newest : List Row)
    → HasRow q rs
    → is_event q ≡ true
    → HasRow q (recent_from newest rs)
unfolding recent_from
recent_from-all q [] newest h e = elim h [ ]
recent_from-all q (r ∷ rs) newest (inl same) e =
    rw (sym (ap is_event same) ∙ e)
      (recent_from-keeps q rs _ ((place_recent-HasRow q r newest).1 (inl same)))
recent_from-all q (r ∷ rs) newest (inr h) e = recent_from-all q rs _ h e

NotAfter-HasRow :
    (a q : Row) (xs : List Row) → NotAfter a xs → HasRow q xs → q.created_at ≤ a.created_at
NotAfter-HasRow a q [] n h = elim h [ ]
NotAfter-HasRow a q (x ∷ xs) n (inl e) = rw e n.0
NotAfter-HasRow a q (x ∷ xs) n (inr h) = NotAfter-HasRow a q xs n.1 h

-- No row is older than `q`.
abbrev pub NotBefore : Row → List Row → Type 0
NotBefore q [] = Unit {0}
NotBefore q (x ∷ xs) = (q.created_at ≤ x.created_at) × NotBefore q xs

-- `q` is listed, or the list is full with rows that are not older.
abbrev pub ListedOr : ℕ → Row → List Row → Type 0
ListedOr n q xs = HasRow q xs ⊎ ((length xs ≡ n) × NotBefore q xs)

take_rows-ListedOr :
    (n : ℕ) (q : Row) (xs : List Row)
    → IsNewestFirst xs
    → HasRow q xs
    → ListedOr n q (take_rows n xs)
unfolding take_rows
take_rows-ListedOr zero q xs s h = inr (refl, tt)
take_rows-ListedOr (suc n) q [] s h = elim h [ ]
take_rows-ListedOr (suc n) q (x ∷ xs) s (inl e) = inl (inl e)
take_rows-ListedOr (suc n) q (x ∷ xs) s (inr h) = elim (take_rows-ListedOr n q xs s.1 h) [
  | inl k ↦ inl (inr k)
  | inr k ↦ inr (ap suc k.0, (NotAfter-HasRow x q xs s.0 h, k.1))
]

take_rows-HasRow : (n : ℕ) (q : Row) (xs : List Row) → HasRow q (take_rows n xs) → HasRow q xs
unfolding take_rows
take_rows-HasRow zero q xs h = elim h [ ]
take_rows-HasRow (suc n) q [] h = h
take_rows-HasRow (suc n) q (x ∷ xs) (inl e) = inl e
take_rows-HasRow (suc n) q (x ∷ xs) (inr h) = inr (take_rows-HasRow n q xs h)

take_rows-length : (n : ℕ) (xs : List Row) → length (take_rows n xs) ≤ n
unfolding take_rows
take_rows-length zero xs = omega arith
take_rows-length (suc n) [] = omega arith
take_rows-length (suc n) (x ∷ xs) = omega (arith, take_rows-length n xs)

-- At most `n` events of `rs`, the newest first; an event that is missing is no newer than the
-- listed ones, of which there are `n`.
pub record Recent (n : ℕ) (rs xs : List Row) : Type 0 where
  pub newest_first : IsNewestFirst xs
  pub at_most : length xs ≤ n
  pub only : (q : Row) → HasRow q xs → HasRow q rs × (is_event q ≡ true)
  pub all : (q : Row) → HasRow q rs → is_event q ≡ true → ListedOr n q xs

-- The recent entries are at most the limit, are events of the journal, and come newest first; an
-- event of the journal is listed, or the list is full with events that are not older.
pub list_recent-Recent : (n : ℕ) (rs : List Row) → Recent n rs (list_recent n rs)
unfolding list_recent
list_recent-Recent n rs =
    let sorted = recent_from-IsNewestFirst rs [] tt in
    record {
      newest_first = take_rows-IsNewestFirst n _ sorted;
      at_most = take_rows-length n (recent_from [] rs);
      only = λ q h. elim (recent_from-only q rs [] (take_rows-HasRow n q _ h)) [
        | inl k ↦ absurd k
        | inr k ↦ k
      ];
      all = λ q h e. take_rows-ListedOr n q _ sorted (recent_from-all q rs [] h e);
    }
