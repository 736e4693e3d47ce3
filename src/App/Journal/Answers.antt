-- ===== src/App/Journal/Answers.antt =====
-- Which intents the report of app/journal.py and infrastructure/persistence/journal.py lists, in
-- terms of the records' own fields.
use flower_vending_system.Prelude.{
  true, false, ◌&&◌, Option, none, some, List, [], ◌∷◌, ◌≡◌, ◌≢◌, inl, inr, refl, arith, Bool-cases,
  is_some,
}
use flower_vending_system.App.World.{JournalOutcome, JournalEntry}
use flower_vending_system.App.Journal.{is_outcome, same_action, has_outcome, unresolved_intents}
use flower_vending_system.App.Journal.Resolution.{
  Has, Agree, same_action-Agree, Agree-same_action, reported_iff,
}

-- Some record has an outcome for the action, the step and the transaction of the intent.
abbrev pub IsAnswered : JournalEntry → List JournalEntry → Type 0
IsAnswered i xs = (x : JournalEntry) × Has x xs × (x.outcome ≢ none) × Agree i x

-- The record is an intent of the journal that no record answers.
abbrev pub IsUnanswered : JournalEntry → List JournalEntry → Type 0
IsUnanswered i xs = Has i xs × (i.outcome ≡ none) × ¬ IsAnswered i xs

no_outcome : (o : Option JournalOutcome) → is_some o ≡ false → o ≡ none
no_outcome none h = refl
no_outcome (some x) h = ground arith

some_outcome : (o : Option JournalOutcome) → is_some o ≡ true → o ≢ none
some_outcome none h e = ground arith
some_outcome (some x) h e = ground arith

outcome_some : (o : Option JournalOutcome) → o ≢ none → is_some o ≡ true
outcome_some none h = elim (h refl) [ ]
outcome_some (some x) h = refl

IsAnswered-has_outcome :
    (i x : JournalEntry) (xs : List JournalEntry)
    → Has x xs
    → x.outcome ≢ none
    → Agree i x
    → has_outcome i xs ≡ true
unfolding has_outcome
IsAnswered-has_outcome i x [] h o a = elim h [ ]
IsAnswered-has_outcome i x (y ∷ ys) (inl e) o a =
    rw (← e, outcome_some x.outcome o, Agree-same_action i x a) refl
IsAnswered-has_outcome i x (y ∷ ys) (inr h) o a =
    ground (arith, IsAnswered-has_outcome i x ys h o a)

has_outcome-IsAnswered :
    (i : JournalEntry) (xs : List JournalEntry) → has_outcome i xs ≡ true → IsAnswered i xs
unfolding has_outcome
has_outcome-IsAnswered i [] h = ground arith
has_outcome-IsAnswered i (y ∷ ys) h = elim (Bool-cases (is_outcome y && same_action i y)) [
  | inl e ↦
      (y, inl refl, some_outcome y.outcome (ground arith), same_action-Agree i y (ground arith))
  | inr e ↦ let (x, m, o, a) = has_outcome-IsAnswered i ys (rw e at h) in (x, inr m, o, a)
]

-- A record is reported as unresolved exactly if it is in the journal, has no outcome, and no
-- record of the journal has an outcome and its transaction, its action and its step.
pub unresolved_intents_lem :
    (xs : List JournalEntry) (i : JournalEntry)
    → (Has i (unresolved_intents xs) → IsUnanswered i xs)
      × (IsUnanswered i xs → Has i (unresolved_intents xs))
unresolved_intents_lem xs i = (
  λ h.
      let (m, o, n) = (reported_iff xs i).0 h in
      (
        m,
        no_outcome i.outcome o,
        λ (x, k, p, a). ground (arith, n, IsAnswered-has_outcome i x xs k p a),
      ),
  λ (m, o, n). (reported_iff xs i).1 (m, rw o refl, unanswered n),
)
  where
    unanswered : ¬ IsAnswered i xs → has_outcome i xs ≡ false
    unanswered n = elim (Bool-cases (has_outcome i xs)) [
      | inl e ↦ elim (n (has_outcome-IsAnswered i xs e)) [ ]
      | inr e ↦ e
    ]
