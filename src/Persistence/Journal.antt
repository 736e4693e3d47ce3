-- ===== src/Persistence/Journal.antt =====
-- SQLiteTransactionJournal of infrastructure/persistence/journal.py, as the rows of its table, the
-- oldest first: `journal_id` is a row's place. Entry names and keys are numbers, and so is a time.
-- Payloads, correlation ids and the foreign key are left out.
pub mod Recent
pub mod Open
use flower_vending_system.Prelude.{
  ℕ, zero, suc, Bool, true, false, not, ◌&&◌, ◌||◌, Option, none, some, List, [], ◌∷◌, ◌++◌, ◌==◌,
  leb, ltb, if◌then◌else◌,
}
use flower_vending_system.Domain.Status.{MachineState}
use flower_vending_system.Domain.Statuses.{TransactionStatus}
use flower_vending_system.App.Startup.{insert_sorted}

-- `JournalEntryKind`
pub data EntryKind : Type 0 where
  intent outcome event fault recovery : EntryKind

-- `JournalEntry`
pub record Row : Type 0 where
  pub entry_kind : EntryKind
  pub entry_name : ℕ
  pub transaction_id : Option ℕ
  pub machine_state : Option MachineState
  pub transaction_status : Option TransactionStatus
  pub idempotency_key : Option ℕ
  pub created_at : ℕ

-- `a = b` in SQL, where a null equals nothing.
abbrev pub sql_equal : Option ℕ → Option ℕ → Bool
sql_equal (some a) (some b) = a == b
sql_equal _ _ = false

unfoldable pub has_row_key : Option ℕ → List Row → Bool
has_row_key k [] = false
has_row_key k (r ∷ rs) = sql_equal k r.idempotency_key || has_row_key k rs

-- `append_entry`: `INSERT OR IGNORE` under the unique index on the keys that are not null.
unfoldable pub append_row : Row → List Row → List Row
unfolding has_row_key
append_row r rs = if has_row_key r.idempotency_key rs then rs else rs ++ (r ∷ [])

-- `append_event`
unfoldable pub append_event :
    ℕ
    → Option ℕ
    → Option MachineState
    → Option TransactionStatus
    → Option ℕ
    → ℕ
    → List Row
    → List Row
unfolding append_row
append_event name tid machine status key time rs =
    append_row
      (record {
        entry_kind = EntryKind.event;
        entry_name = name;
        transaction_id = tid;
        machine_state = machine;
        transaction_status = status;
        idempotency_key = key;
        created_at = time;
      })
      rs

unfoldable pub read_for_transaction : ℕ → List Row → List Row
read_for_transaction tid [] = []
read_for_transaction tid (r ∷ rs) =
    if sql_equal (some tid) r.transaction_id
    then r ∷ read_for_transaction tid rs
    else read_for_transaction tid rs

abbrev pub is_event : Row → Bool
is_event r = elim r.entry_kind [ EntryKind.event ↦ true | _ ↦ false ]

-- A row before the first that is no newer: of two rows of one time the later one is first.
unfoldable pub place_recent : Row → List Row → List Row
place_recent r [] = r ∷ []
place_recent r (x ∷ xs) =
    if leb x.created_at r.created_at then r ∷ x ∷ xs else x ∷ place_recent r xs

-- The events, `ORDER BY created_at DESC, journal_id DESC`, with `newest` those of the rows before.
unfoldable pub recent_from : List Row → List Row → List Row
unfolding place_recent
recent_from newest [] = newest
recent_from newest (r ∷ rs) = recent_from (if is_event r then place_recent r newest else newest) rs

-- `LIMIT`
unfoldable pub take_rows : ℕ → List Row → List Row
take_rows zero rs = []
take_rows (suc n) [] = []
take_rows (suc n) (r ∷ rs) = r ∷ take_rows n rs

unfoldable pub list_recent : ℕ → List Row → List Row
unfolding take_rows recent_from
list_recent limit rs = take_rows limit (recent_from [] rs)

-- `transaction_status IS NULL OR transaction_status NOT IN ('completed', 'cancelled')`
abbrev pub is_open_status : Option TransactionStatus → Bool
is_open_status (some TransactionStatus.completed) = false
is_open_status (some TransactionStatus.cancelled) = false
is_open_status _ = true

-- `ORDER BY transaction_id`, each once.
unfoldable pub place_open : Option ℕ → Bool → List ℕ → List ℕ
unfolding insert_sorted
place_open (some tid) true ids = insert_sorted tid ids
place_open _ _ ids = ids

unfoldable pub unresolved_transaction_ids : List Row → List ℕ
unfolding place_open
unresolved_transaction_ids [] = []
unresolved_transaction_ids (r ∷ rs) =
    place_open r.transaction_id (is_open_status r.transaction_status)
      (unresolved_transaction_ids rs)
