-- ===== src/Persistence/Store.antt =====
-- The tables of infrastructure/persistence/sqlite/repositories.py that hold the machine's state,
-- and RuntimePersistenceProjector of runtime/bootstrap.py, which writes them after every event. A
-- table is a dict from primary keys to rows; `ON CONFLICT DO UPDATE` writes every column.
pub mod Projection
pub mod Saved
pub mod Durable
use Prim.Native.String.{String}
use text.Mathlib.Text.{◌==◌ as str_eq}
use flower_vending_system.Prelude.{
  ℕ, Bool, not, ◌&&◌, ◌||◌, Option, none, some, List, [], ◌∷◌, leb, if◌then◌else◌,
}
use flower_vending_system.Prelude.Dict.{Dict, lookup, insert}
use flower_vending_system.Prelude.Result.{Result, ok, err, map_ok, ◌>>=◌}
use flower_vending_system.Domain.Transaction.{Transaction}
use flower_vending_system.Domain.Slot.{Slot}
use flower_vending_system.Domain.Status.{MachineStatus}
use flower_vending_system.Money.Inventory.{MoneyInventory}
use flower_vending_system.App.World.{World}
use flower_vending_system.App.Services.{active, unresolved}
use flower_vending_system.App.Startup.{keyed, values}
use flower_vending_system.Persistence.Records.{TransactionRow, SlotRow, StatusRow, MoneyRow}
use flower_vending_system.Persistence.Mappers.{
  map_present, read_present, transaction_to_record, transaction_from_row, slot_to_record,
  slot_from_row, machine_status_to_record, machine_status_from_row, money_inventory_to_record,
  money_inventory_from_row,
}

pub record Store : Type 0 where
  pub transactions : Dict TransactionRow
  pub slots : Dict SlotRow
  pub machine_status : Dict StatusRow
  pub money_inventory : Dict MoneyRow

-- `TransactionRepository`
unfoldable pub save_transaction : Transaction → Store → Store
save_transaction t s = record s {
  transactions = insert t.transaction_id (transaction_to_record t) s.transactions;
}

unfoldable pub get_transaction : ℕ → Store → Result (Option Transaction)
get_transaction tid s = read_present transaction_from_row (lookup tid s.transactions)

-- `status NOT IN ('completed', 'cancelled') OR recovery_status <> 'none'`
abbrev pub is_unresolved_row : TransactionRow → Bool
is_unresolved_row r =
    not (str_eq r.status "completed" || str_eq r.status "cancelled")
    || not (str_eq r.recovery_status "none")

-- `ORDER BY updated_at ASC`, rows of one time in the order of the table.
abbrev place_row : TransactionRow → List TransactionRow → List TransactionRow
place_row r [] = r ∷ []
place_row r (x ∷ xs) = if leb r.updated_at x.updated_at then r ∷ x ∷ xs else x ∷ place_row r xs

unfoldable pub unresolved_rows : Dict TransactionRow → List TransactionRow
unresolved_rows [] = []
unresolved_rows ((k, r) ∷ rows) =
    if is_unresolved_row r then place_row r (unresolved_rows rows) else unresolved_rows rows

unfoldable pub read_rows : List TransactionRow → Result (List Transaction)
read_rows [] = ok []
read_rows (r ∷ rs) = do t ← transaction_from_row r; ts ← read_rows rs; ok (t ∷ ts)

unfoldable pub list_unresolved : Store → Result (List Transaction)
unfolding read_rows unresolved_rows
list_unresolved s = read_rows (unresolved_rows s.transactions)

-- `SlotRepository`
unfoldable pub save_slot : Slot → Store → Store
save_slot x s = record s { slots = insert x.slot_id (slot_to_record x) s.slots }

unfoldable pub get_slot : ℕ → Store → Result (Option Slot)
get_slot sid s = read_present slot_from_row (lookup sid s.slots)

unfoldable pub delete_slots : Store → Store
delete_slots s = record s { slots = [] }

-- `MachineStatusRepository`
unfoldable pub save_machine_status : ℕ → MachineStatus → Store → Store
save_machine_status machine_id x s = record s {
  machine_status = insert machine_id (machine_status_to_record x) s.machine_status;
}

unfoldable pub get_machine_status : ℕ → Store → Option MachineStatus
get_machine_status machine_id s =
    map_present machine_status_from_row (lookup machine_id s.machine_status)

-- `MoneyInventoryRepository`; the inventory's id is always `main`, 1 here.
abbrev pub main_inventory : ℕ
main_inventory = 1

unfoldable pub save_money_inventory : MoneyInventory → Store → Store
save_money_inventory x s = record s {
  money_inventory = insert main_inventory (money_inventory_to_record x) s.money_inventory;
}

unfoldable pub get_money_inventory : Store → Result (Option MoneyInventory)
get_money_inventory s =
    read_present money_inventory_from_row (lookup main_inventory s.money_inventory)

abbrev pub or_else {ℓ} : {A : Type ℓ} → Option A → Option A → Option A
or_else (some a) b = some a
or_else none b = b

abbrev pub primary_dict : Option Transaction → Dict Transaction
primary_dict none = []
primary_dict (some t) = (t.transaction_id, t) ∷ []

-- `_transactions_to_persist`
unfoldable pub transactions_to_persist : Option Transaction → World → List Transaction
unfolding active unresolved keyed
transactions_to_persist primary w =
    values (keyed (unresolved w.transactions) (primary_dict (or_else primary (active w))))

unfoldable pub save_transactions : List Transaction → Store → Store
unfolding save_transaction
save_transactions [] s = s
save_transactions (t ∷ ts) s = save_transactions ts (save_transaction t s)

-- `event.transaction_id is not None`
abbrev pub event_transaction : Option ℕ → World → Option Transaction
event_transaction none w = active w
event_transaction (some tid) w = lookup tid w.transactions

-- `_persist_runtime_snapshot`, and what `handle_domain_event` saves, in an order that does not
-- matter: the tables differ.
unfoldable pub persist_state : ℕ → Option Transaction → World → Store → Store
unfolding transactions_to_persist save_transactions save_machine_status save_money_inventory
persist_state machine_id primary w s = save_money_inventory w.money (
    save_machine_status machine_id w.status
      (save_transactions (transactions_to_persist primary w) s))

-- `RuntimePersistenceProjector.handle_domain_event`, for the transaction that the event names.
unfoldable pub handle_domain_event : ℕ → Option ℕ → World → Store → Store
unfolding persist_state
handle_domain_event machine_id tid w s = persist_state machine_id (event_transaction tid w) w s
