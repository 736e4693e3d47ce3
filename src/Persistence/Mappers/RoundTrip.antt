-- ===== src/Persistence/Mappers/RoundTrip.antt =====
-- infrastructure/persistence/sqlite/mappers.py: what comes back of an entity that is stored.
use flower_vending_system.Prelude.{
  ℕ, Bool, true, false, Option, none, some, List, [], ◌∷◌, ◌≡◌, refl, arith, ◌==◌, if◌then◌else◌,
  ◌||◌,
}
use flower_vending_system.Prelude.Dict.{Dict, lookup}
use flower_vending_system.Prelude.Result.{ok}
use flower_vending_system.Domain.Session.{PaymentSession}
use flower_vending_system.Domain.Reserve.{ChangeReserve}
use flower_vending_system.Domain.Transaction.{Transaction}
use flower_vending_system.Domain.Status.{MachineStatus, Blocker, has_blocker, blocker_code}
use flower_vending_system.Money.Inventory.{MoneyInventory}
use flower_vending_system.Persistence.Texts.{
  parse_transaction_status-value, parse_payment_status-value, parse_payout_status-value,
  parse_dispense_status-value, parse_delivery_status-value, parse_recovery_status-value,
  parse_session_status-value, parse_reserve_status-value,
}
use flower_vending_system.Persistence.Records.{place, sort_keys, flag, truth}
use flower_vending_system.Persistence.Mappers.{
  map_present, read_present, session_to_json, session_from_json, reserve_to_json, reserve_from_json,
  transaction_to_record, transaction_from_row, place_blocker, sorted_blockers,
  machine_status_to_record, machine_status_from_row, money_inventory_to_record,
  money_inventory_from_row,
}

lookup-place :
    {V : Type 0} (j k : ℕ) (v : V) (d : Dict V)
    → lookup j (place k v d) ≡ (if j == k then some v else lookup j d)
lookup-place j k v [] = refl
lookup-place j k v ((i, w) ∷ d) = ground (arith, lookup-place j k v d)

pub lookup-sort_keys : {V : Type 0} (j : ℕ) (d : Dict V) → lookup j (sort_keys d) ≡ lookup j d
unfolding sort_keys
lookup-sort_keys j [] = refl
lookup-sort_keys j ((k, v) ∷ d) =
    ground (arith, lookup-place j k v (sort_keys d), lookup-sort_keys j d)

-- What the constructors of the identifiers and currencies ask for.
pub record IsStorable (t : Transaction) : Type 0 where
  pub has_id : (t.transaction_id == 0) ≡ false
  pub has_correlation : (t.correlation_id == 0) ≡ false
  pub has_product : (t.product_id == 0) ≡ false
  pub has_slot : (t.slot_id == 0) ≡ false
  pub has_currency : (t.price.currency == 0) ≡ false
  pub session_currency :
      (s : PaymentSession) → t.payment_session ≡ some s → (s.accepted_amount.currency == 0) ≡ false
  pub reserve_currency : (r : ChangeReserve) → t.change_reserve ≡ some r → (r.currency == 0) ≡ false

-- A reserve with its counts in the order of the denominations.
abbrev pub with_sorted_counts : ChangeReserve → ChangeReserve
with_sorted_counts r = record r { counts = sort_keys r.counts }

-- A transaction as it comes back: the amounts are in the currency of the price, and the reserved
-- counts are sorted.
abbrev pub as_stored : Transaction → Transaction
as_stored t = record t {
  accepted_amount = record {
    minor_units = t.accepted_amount.minor_units;
    currency = t.price.currency;
  };
  change_due = record { minor_units = t.change_due.minor_units; currency = t.price.currency };
  change_reserve = map_present with_sorted_counts t.change_reserve;
}

session_round_trip :
    (o : Option PaymentSession)
    → ((s : PaymentSession) → o ≡ some s → (s.accepted_amount.currency == 0) ≡ false)
    → read_present session_from_json (map_present session_to_json o) ≡ ok o
unfolding session_from_json
session_round_trip none h = refl
session_round_trip (some s) h = rw (parse_session_status-value s.status, h s refl) refl

reserve_round_trip :
    (o : Option ChangeReserve)
    → ((r : ChangeReserve) → o ≡ some r → (r.currency == 0) ≡ false)
    → read_present reserve_from_json (map_present reserve_to_json o)
      ≡ ok (map_present with_sorted_counts o)
unfolding reserve_from_json
reserve_round_trip none h = refl
reserve_round_trip (some r) h = rw (parse_reserve_status-value r.status, h r refl) refl

-- A transaction that is written to its row and read again is the one that was written, but that its
-- amounts are in the currency of its price and its reserved counts sorted by denomination; its
-- identifiers and currencies are not blank.
pub transaction_round_trip :
    (t : Transaction)
    → IsStorable t
    → transaction_from_row (transaction_to_record t) ≡ ok (as_stored t)
unfolding transaction_from_row transaction_to_record
transaction_round_trip t h = simp (
  h.has_id,
  h.has_correlation,
  h.has_product,
  h.has_slot,
  h.has_currency,
  parse_transaction_status-value,
  parse_payment_status-value,
  parse_payout_status-value,
  parse_dispense_status-value,
  parse_delivery_status-value,
  parse_recovery_status-value,
  session_round_trip t.payment_session h.session_currency,
  reserve_round_trip t.change_reserve h.reserve_currency,
)

has_blocker-place_blocker :
    (b c : Blocker) (xs : List Blocker)
    → has_blocker b (place_blocker c xs) ≡ (blocker_code b == blocker_code c || has_blocker b xs)
has_blocker-place_blocker b c [] = refl
has_blocker-place_blocker b c (x ∷ xs) = ground (arith, has_blocker-place_blocker b c xs)

has_blocker-sorted_blockers :
    (b : Blocker) (xs : List Blocker) → has_blocker b (sorted_blockers xs) ≡ has_blocker b xs
unfolding sorted_blockers
has_blocker-sorted_blockers b [] = refl
has_blocker-sorted_blockers b (x ∷ xs) =
    ground
      (arith, has_blocker-place_blocker b x (sorted_blockers xs), has_blocker-sorted_blockers b xs)

truth-flag : (b : Bool) → truth (flag b) ≡ b
truth-flag true = refl
truth-flag false = refl

-- The machine's status comes back as it was stored, with the same set of blockers.
pub machine_status_round_trip :
    (s : MachineStatus)
    → (machine_status_from_row (machine_status_to_record s)
        ≡ record s { sale_blockers = sorted_blockers s.sale_blockers })
      × ((b : Blocker)
          → has_blocker b (machine_status_from_row (machine_status_to_record s)).sale_blockers
            ≡ has_blocker b s.sale_blockers)
machine_status_round_trip s = (simp truth-flag, λ b. has_blocker-sorted_blockers b s.sale_blockers)

-- The books come back as they were stored, each dict sorted by denomination.
pub money_inventory_round_trip :
    (m : MoneyInventory)
    → (m.currency == 0) ≡ false
    → money_inventory_from_row (money_inventory_to_record m)
      ≡ ok (record m { accounting = sort_keys m.accounting; reserved = sort_keys m.reserved })
unfolding money_inventory_from_row money_inventory_to_record
money_inventory_round_trip m h = simp (h, truth-flag)
