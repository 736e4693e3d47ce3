-- ===== src/App/Journal.antt =====
-- The intent journal: app/journal.py and infrastructure/persistence/journal.py. An idempotency
-- key names the transaction, the action, the step and the kind of the record; the table has a
-- unique index on it and `INSERT OR IGNORE` drops a second record with a key that is there.
pub mod Resolution
pub mod Answers
pub mod Kept
use flower_vending_system.Prelude.{
  ℕ, Bool, true, false, not, ◌&&◌, ◌||◌, Option, none, some, List, [], ◌∷◌, ◌++◌, ◌==◌,
  if◌then◌else◌, is_some,
}
use flower_vending_system.Prelude.Dict.{lookup}
use flower_vending_system.Domain.Transaction.{Transaction}
use flower_vending_system.Domain.Statuses.{TransactionStatus}
use flower_vending_system.App.World.{
  ActionName, LogicalStep, JournalOutcome, JournalEntry, journaled, World, Action, modify,
}

abbrev pub action_code : ActionName → ℕ
action_code ActionName.acceptance_enable_requested = 0
action_code ActionName.acceptance_disable_requested = 1
action_code ActionName.change_dispense_requested = 2
action_code ActionName.refund_dispense_requested = 3
action_code ActionName.motor_vend_requested = 4
action_code ActionName.window_open_requested = 5
action_code ActionName.window_close_requested = 6

abbrev pub step_code : LogicalStep → ℕ
step_code LogicalStep.start_session_enable = 0
step_code LogicalStep.complete_payment_disable = 1
step_code LogicalStep.complete_payment_change = 2
step_code LogicalStep.cancel_disable = 3
step_code LogicalStep.cancel_refund = 4
step_code LogicalStep.vend_motor = 5
step_code LogicalStep.vend_open_window = 6
step_code LogicalStep.pickup_close_window = 7
step_code LogicalStep.timeout_close_window = 8

-- `entry_kind == 'outcome'`
abbrev pub is_outcome : JournalEntry → Bool
is_outcome e = is_some e.outcome

abbrev pub same_kind : Bool → Bool → Bool
same_kind true b = b
same_kind false b = not b

-- The parts of the key before the kind agree.
unfoldable pub same_action : JournalEntry → JournalEntry → Bool
same_action a b =
    a.transaction_id == b.transaction_id
    && (action_code a.action == action_code b.action
        && step_code a.logical_step == step_code b.logical_step)

-- `journal_idempotency_key`: two records have one key.
unfoldable pub same_key : JournalEntry → JournalEntry → Bool
unfolding same_action
same_key a b = same_action a b && same_kind (is_outcome a) (is_outcome b)

unfoldable pub has_key : JournalEntry → List JournalEntry → Bool
has_key e [] = false
has_key e (x ∷ xs) = same_key e x || has_key e xs

-- `append_entry`
unfoldable pub append_entry : JournalEntry → List JournalEntry → List JournalEntry
append_entry e xs = if has_key e xs then xs else xs ++ (e ∷ [])

unfoldable pub has_outcome : JournalEntry → List JournalEntry → Bool
has_outcome i [] = false
has_outcome i (x ∷ xs) = (is_outcome x && same_action i x) || has_outcome i xs

-- `unresolved_intents`: the intents with no outcome under the matching key, in order.
unfoldable pub unresolved_from : List JournalEntry → List JournalEntry → List JournalEntry
unresolved_from all [] = []
unresolved_from all (x ∷ xs) =
    if is_outcome x || has_outcome x all then unresolved_from all xs else x ∷ unresolved_from all xs

unfoldable pub unresolved_intents : List JournalEntry → List JournalEntry
unresolved_intents xs = unresolved_from xs xs

abbrev status_of : Option Transaction → Option TransactionStatus
status_of none = none
status_of (some t) = some t.status

-- The record that `_record_intent` and `_record_outcome` make: the machine's and the
-- transaction's states are those of the moment.
unfoldable pub entry_for :
    ℕ → ActionName → LogicalStep → Option JournalOutcome → World → JournalEntry
entry_for tid a s o w = record {
  transaction_id = tid;
  action = a;
  logical_step = s;
  outcome = o;
  machine_state = w.fsm.state;
  transaction_status = status_of (lookup tid w.transactions);
}

unfoldable pub record_entry :
    ℕ → ActionName → LogicalStep → Option JournalOutcome → Action (Unit {0})
unfolding modify
record_entry tid a s o = modify λ w.
    let e = entry_for tid a s o w in
    record w { journal = append_entry e w.journal; trace = journaled e ∷ w.trace }

-- `_record_intent` and `_record_outcome`, which the orchestrators share.
unfoldable pub record_intent : ℕ → ActionName → LogicalStep → Action (Unit {0})
unfolding record_entry entry_for
record_intent tid a s = record_entry tid a s none

unfoldable pub record_outcome : ℕ → ActionName → LogicalStep → JournalOutcome → Action (Unit {0})
unfolding record_entry entry_for
record_outcome tid a s o = record_entry tid a s (some o)
