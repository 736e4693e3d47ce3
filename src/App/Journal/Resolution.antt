-- ===== src/App/Journal/Resolution.antt =====
-- Which intents app/journal.py and infrastructure/persistence/journal.py hold to be unresolved.
use flower_vending_system.Prelude.{
  ℕ, Bool, true, false, ◌==◌, if◌then◌else◌, ◌&&◌, ◌||◌, List, [], ◌∷◌, ◌++◌, ◌≡◌, ◌⊎◌, inl, inr,
  ◌∙◌, refl, arith, Bool-cases, ap, sym,
}
use flower_vending_system.App.World.{ActionName, LogicalStep, JournalEntry}
use flower_vending_system.App.Journal.{
  action_code, step_code, is_outcome, same_action, same_kind, same_key, has_key, append_entry,
  has_outcome, unresolved_from, unresolved_intents,
}

abbrev pub Has : JournalEntry → List JournalEntry → Type 0
Has i [] = ⊥
Has i (x ∷ xs) = (i ≡ x) ⊎ Has i xs

unresolved_from_lem :
    (all xs : List JournalEntry) (i : JournalEntry)
    → Has i (unresolved_from all xs)
    → Has i xs × (is_outcome i ≡ false) × (has_outcome i all ≡ false)
unfolding unresolved_from
unresolved_from_lem all [] i h = elim h [ ]
unresolved_from_lem all (x ∷ xs) i h = ground (arith, unresolved_from_lem all xs i)

listed_unresolved :
    (all xs : List JournalEntry) (i : JournalEntry)
    → Has i xs
    → is_outcome i ≡ false
    → has_outcome i all ≡ false
    → Has i (unresolved_from all xs)
unfolding unresolved_from
listed_unresolved all [] i h o n = elim h [ ]
listed_unresolved all (x ∷ xs) i (inl e) o n = rw (← e, o, n) (inl refl)
listed_unresolved all (x ∷ xs) i (inr h) o n =
    elim (Bool-cases (is_outcome x || has_outcome x all)) [
      | inl e ↦ rw e (listed_unresolved all xs i h o n)
      | inr e ↦ rw e (inr (listed_unresolved all xs i h o n))
    ]

pub reported_iff :
    (xs : List JournalEntry) (i : JournalEntry)
    → (Has i (unresolved_intents xs)
        → Has i xs × (is_outcome i ≡ false) × (has_outcome i xs ≡ false))
      × (Has i xs × (is_outcome i ≡ false) × (has_outcome i xs ≡ false)
          → Has i (unresolved_intents xs))
unfolding unresolved_intents
reported_iff xs i = (unresolved_from_lem xs xs i, λ h. listed_unresolved xs xs i h.0 h.1 h.2)

has_outcome-snoc :
    (i o : JournalEntry) (xs : List JournalEntry)
    → is_outcome o ≡ true
    → same_action i o ≡ true
    → has_outcome i (xs ++ (o ∷ [])) ≡ true
unfolding has_outcome
has_outcome-snoc i o [] h k = rw (h, k) refl
has_outcome-snoc i o (x ∷ xs) h k = ground (arith, has_outcome-snoc i o xs h k)

action_of : ℕ → ActionName
action_of n =
    if n == 0
    then ActionName.acceptance_enable_requested
    else if n == 1
    then ActionName.acceptance_disable_requested
    else if n == 2
    then ActionName.change_dispense_requested
    else if n == 3
    then ActionName.refund_dispense_requested
    else if n == 4
    then ActionName.motor_vend_requested
    else if n == 5
    then ActionName.window_open_requested
    else ActionName.window_close_requested

action_of_code : (a : ActionName) → action_of (action_code a) ≡ a
unfolding action_of
action_of_code ActionName.acceptance_enable_requested = refl
action_of_code ActionName.acceptance_disable_requested = refl
action_of_code ActionName.change_dispense_requested = refl
action_of_code ActionName.refund_dispense_requested = refl
action_of_code ActionName.motor_vend_requested = refl
action_of_code ActionName.window_open_requested = refl
action_of_code ActionName.window_close_requested = refl

step_of : ℕ → LogicalStep
step_of n =
    if n == 0
    then LogicalStep.start_session_enable
    else if n == 1
    then LogicalStep.complete_payment_disable
    else if n == 2
    then LogicalStep.complete_payment_change
    else if n == 3
    then LogicalStep.cancel_disable
    else if n == 4
    then LogicalStep.cancel_refund
    else if n == 5
    then LogicalStep.vend_motor
    else if n == 6
    then LogicalStep.vend_open_window
    else if n == 7
    then LogicalStep.pickup_close_window
    else LogicalStep.timeout_close_window

step_of_code : (s : LogicalStep) → step_of (step_code s) ≡ s
unfolding step_of
step_of_code LogicalStep.start_session_enable = refl
step_of_code LogicalStep.complete_payment_disable = refl
step_of_code LogicalStep.complete_payment_change = refl
step_of_code LogicalStep.cancel_disable = refl
step_of_code LogicalStep.cancel_refund = refl
step_of_code LogicalStep.vend_motor = refl
step_of_code LogicalStep.vend_open_window = refl
step_of_code LogicalStep.pickup_close_window = refl
step_of_code LogicalStep.timeout_close_window = refl

-- The transaction, the action and the step of two records are the same.
abbrev pub Agree : JournalEntry → JournalEntry → Type 0
Agree a b =
    (a.transaction_id ≡ b.transaction_id)
    × (a.action ≡ b.action)
    × (a.logical_step ≡ b.logical_step)

pub same_action-Agree : (a b : JournalEntry) → same_action a b ≡ true → Agree a b
unfolding same_action
same_action-Agree a b h =
    let (i, j, k) = codes in
    (
      i,
      sym (action_of_code a.action) ∙ (ap action_of j ∙ action_of_code b.action),
      sym (step_of_code a.logical_step) ∙ (ap step_of k ∙ step_of_code b.logical_step),
    )
  where
    codes :
        (a.transaction_id ≡ b.transaction_id)
        × (action_code a.action ≡ action_code b.action)
        × (step_code a.logical_step ≡ step_code b.logical_step)
    codes = ground arith

pub Agree-same_action : (a b : JournalEntry) → Agree a b → same_action a b ≡ true
unfolding same_action
Agree-same_action a b (i, j, k) = codes i (ap action_code j) (ap step_code k)
  where
    codes :
        a.transaction_id ≡ b.transaction_id
        → action_code a.action ≡ action_code b.action
        → step_code a.logical_step ≡ step_code b.logical_step
        → (a.transaction_id == b.transaction_id
            && (action_code a.action == action_code b.action
                && step_code a.logical_step == step_code b.logical_step))
          ≡ true
    codes i j k = ground arith

same_action_trans :
    (a b c : JournalEntry)
    → same_action a b ≡ true
    → same_action b c ≡ true
    → same_action a c ≡ true
same_action_trans a b c h k =
    let (i, x, y) = same_action-Agree a b h in
    let (j, z, t) = same_action-Agree b c k in Agree-same_action a c (i ∙ j, x ∙ z, y ∙ t)

has_key-outcome :
    (i o : JournalEntry) (xs : List JournalEntry)
    → is_outcome o ≡ true
    → same_action i o ≡ true
    → has_key o xs ≡ true
    → has_outcome i xs ≡ true
unfolding has_key has_outcome same_key
has_key-outcome i o [] h k e = e
has_key-outcome i o (x ∷ xs) h k e = elim (Bool-cases (is_outcome x && same_action o x)) [
  | inl s ↦ found (is_outcome x) (same_action o x) s (same_action_trans i o x k)
  | inr s ↦ rest (is_outcome x) (same_action o x) (rw h at e) s (has_key-outcome i o xs h k)
]
  where
    found :
        (c d : Bool)
        → (c && d) ≡ true
        → (d ≡ true → same_action i x ≡ true)
        → ((c && same_action i x) || has_outcome i xs) ≡ true
    found c d s f = ground arith

    rest :
        (c d : Bool)
        → ((d && same_kind true c) || has_key o xs) ≡ true
        → (c && d) ≡ false
        → (has_key o xs ≡ true → has_outcome i xs ≡ true)
        → ((c && same_action i x) || has_outcome i xs) ≡ true
    rest c d u s f = ground arith

append_entry-has_outcome :
    (i o : JournalEntry) (xs : List JournalEntry)
    → is_outcome o ≡ true
    → same_action i o ≡ true
    → has_outcome i (append_entry o xs) ≡ true
unfolding append_entry
append_entry-has_outcome i o xs h k =
    ground (arith, has_outcome-snoc i o xs h k, has_key-outcome i o xs h k)

-- Once an outcome is appended, or was there, no intent of its action, step and transaction is
-- reported as unresolved.
pub append_entry-resolves :
    (i o : JournalEntry) (xs : List JournalEntry)
    → is_outcome o ≡ true
    → same_action i o ≡ true
    → ¬ Has i (unresolved_intents (append_entry o xs))
append_entry-resolves i o xs h k u =
    ground (arith, (reported_iff (append_entry o xs) i).0 u, append_entry-has_outcome i o xs h k)
