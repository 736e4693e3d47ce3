-- ===== src/Persistence/Records.antt =====
-- The rows of the database and the JSON objects in them, as
-- infrastructure/persistence/sqlite/mappers.py writes and reads them. A flag is the number 0 or 1;
-- an identifier or a currency code is the number of its text; a timestamp is a number, later
-- times being larger. JSON is taken as the object that it spells, the keys of its dicts sorted.
use Prim.Native.String.{String}
use flower_vending_system.Prelude.{
  ℕ, Bool, true, false, not, Option, List, [], ◌∷◌, leb, if◌then◌else◌, ◌==◌,
}
use flower_vending_system.Prelude.Int.{ℤ}
use flower_vending_system.Prelude.Dict.{Dict}
use flower_vending_system.Domain.Reserve.{Plan}
use flower_vending_system.Domain.Status.{MachineState, Blocker}

-- `int(flag)` and `bool(number)`
abbrev pub flag : Bool → ℕ
flag true = 1
flag false = 0

abbrev pub truth : ℕ → Bool
truth n = not (n == 0)

module _ {V : Type 0} where
  abbrev pub place : ℕ → V → Dict V → Dict V
  place k v [] = (k, v) ∷ []
  place k v ((j, w) ∷ d) = if leb k j then (k, v) ∷ (j, w) ∷ d else (j, w) ∷ place k v d

  -- `json.dumps(..., sort_keys=True)` on a dict with integer keys, and `_int_key_map` behind it.
  unfoldable pub sort_keys : Dict V → Dict V
  sort_keys [] = []
  sort_keys ((k, v) ∷ d) = place k v (sort_keys d)

pub record SessionJson : Type 0 where
  pub transaction_id : ℕ
  pub status : String
  pub accepted_minor_units : ℤ
  pub currency_code : Option ℕ
  pub accepted_bills : Option (List ℕ)
  pub validator_enabled : Bool
  pub cancel_requested : Bool

pub record ReserveJson : Type 0 where
  pub transaction_id : ℕ
  pub counts : Plan
  pub currency_code : Option ℕ
  pub status : String

pub record TransactionRow : Type 0 where
  pub transaction_id : ℕ
  pub correlation_id : ℕ
  pub product_id : ℕ
  pub slot_id : ℕ
  pub price_minor_units : ℤ
  pub currency_code : ℕ
  pub status : String
  pub accepted_minor_units : ℤ
  pub change_due_minor_units : ℤ
  pub payment_status : String
  pub payout_status : String
  pub dispense_status : String
  pub delivery_status : String
  pub recovery_status : String
  pub payment_session_json : Option SessionJson
  pub change_reserve_json : Option ReserveJson
  pub updated_at : ℕ

pub record SlotRow : Type 0 where
  pub slot_id : ℕ
  pub product_id : ℕ
  pub capacity : ℤ
  pub quantity : ℤ
  pub is_enabled : ℕ

pub record StatusRow : Type 0 where
  pub machine_state : MachineState
  pub service_mode : ℕ
  pub exact_change_only : ℕ
  pub sale_blockers_json : List Blocker
  pub active_transaction_id : Option ℕ
  pub allow_cash_sales : ℕ
  pub allow_vending : ℕ

pub record MoneyRow : Type 0 where
  pub currency_code : ℕ
  pub accounting_counts_json : Dict ℤ
  pub reserved_counts_json : Dict ℕ
  pub exact_change_only : ℕ
  pub drift_detected : ℕ
