-- ===== src/Examples/Journal.antt =====
-- The journal's rows at work: infrastructure/persistence/journal.py.
use flower_vending_system.Prelude.{true, ℕ, none, some, List, [], ◌∷◌, ◌≡◌, refl, contains}
use flower_vending_system.Domain.Statuses.{TransactionStatus}
use flower_vending_system.App.Startup.{insert_sorted}
use flower_vending_system.Persistence.Journal.{
  Row, EntryKind, append_row, has_row_key, read_for_transaction, list_recent,
  unresolved_transaction_ids, recent_from, take_rows, place_recent, place_open,
}
use flower_vending_system.Persistence.Journal.Recent.{Recent, list_recent-Recent}
use flower_vending_system.Persistence.Journal.Open.{WasOpen, unresolved_transaction_ids_lem}

-- An event of transaction 41.
abbrev event_at : ℕ → TransactionStatus → Row
event_at time status = record {
  entry_kind = EntryKind.event;
  entry_name = 7;
  transaction_id = some 41;
  machine_state = none;
  transaction_status = some status;
  idempotency_key = none;
  created_at = time;
}

-- The record of an intent, under key 9.
abbrev intent_row : Row
intent_row = record (event_at 3 TransactionStatus.accepting_cash) {
  entry_kind = EntryKind.intent;
  idempotency_key = some 9;
}

abbrev sale_rows : List Row
sale_rows =
    event_at 2 TransactionStatus.created
    ∷ intent_row
    ∷ event_at 5 TransactionStatus.accepting_cash
    ∷ event_at 8 TransactionStatus.completed
    ∷ []

key_kept : append_row intent_row sale_rows ≡ sale_rows
unfolding append_row has_row_key
key_kept = refl

two_newest :
    list_recent 2 sale_rows
    ≡ event_at 8 TransactionStatus.completed ∷ event_at 5 TransactionStatus.accepting_cash ∷ []
unfolding list_recent recent_from take_rows place_recent
two_newest = refl

sale_history : read_for_transaction 41 sale_rows ≡ sale_rows
unfolding read_for_transaction
sale_history = refl

-- The transaction is completed, and still listed.
completed_listed : unresolved_transaction_ids sale_rows ≡ 41 ∷ []
unfolding unresolved_transaction_ids place_open insert_sorted
completed_listed = refl

list_recent-Recent_example : Recent 2 sale_rows (list_recent 2 sale_rows)
list_recent-Recent_example = list_recent-Recent 2 sale_rows

unresolved_transaction_ids_lem_example :
    (contains 41 (unresolved_transaction_ids sale_rows) ≡ true → WasOpen 41 sale_rows)
    × (WasOpen 41 sale_rows → contains 41 (unresolved_transaction_ids sale_rows) ≡ true)
unresolved_transaction_ids_lem_example = unresolved_transaction_ids_lem 41 sale_rows
