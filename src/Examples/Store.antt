-- ===== src/Examples/Store.antt =====
-- The store at work: src/flower_vending/infrastructure/persistence and runtime/bootstrap.py.
use flower_vending_system.Prelude.Int.{pos}
use flower_vending_system.Prelude.Dict.{lookup}
use flower_vending_system.Domain.Transaction.{Transaction, new_transaction}
use flower_vending_system.Fsm.Engine.{transition, can_transition}
use flower_vending_system.App.World.{◌>>=◌, call_presence, publish}
use flower_vending_system.App.Services.{
  ensure_sales_allowed, ensure_selection, get_product, get_slot, create_transaction,
  make_transaction, modify_status, move_to, sync_state,
}
use flower_vending_system.App.Vending.{start_purchase}
use flower_vending_system.App.Machine.{Command, run}
use flower_vending_system.Prelude.{List, ◌∷◌, some, [], ◌≡◌, refl, arith}
use flower_vending_system.Prelude.Result.{ok}
use flower_vending_system.Persistence.Mappers.{transaction_to_record, transaction_from_row}
use flower_vending_system.Persistence.Mappers.RoundTrip.{
  IsStorable, as_stored, transaction_round_trip,
}
use flower_vending_system.Persistence.Store.{Store, get_transaction, handle_domain_event}
use flower_vending_system.Persistence.Store.Durable.{run-stores}
use flower_vending_system.Scenarios.{paid, shop, settings}

paid-IsStorable : IsStorable paid
paid-IsStorable = record {
  has_id = refl;
  has_correlation = refl;
  has_product = refl;
  has_slot = refl;
  has_currency = refl;
  session_currency = λ s e. ground (arith, e);
  reserve_currency = λ r e. cc;
}

transaction_round_trip_example :
    transaction_from_row (transaction_to_record paid) ≡ ok (as_stored paid)
transaction_round_trip_example = transaction_round_trip paid paid-IsStorable

abbrev empty_store : Store
empty_store = record { transactions = []; slots = []; machine_status = []; money_inventory = [] }

-- The machine behind a purchase that has begun.
abbrev begun : List Command
begun = Command.start_purchase 5 7 3 (pos 350) 1 ∷ []

abbrev new_sale : Transaction
new_sale = new_transaction 41 5 7 3 (record { minor_units = 350; currency = 1 }) 1001

begun_transaction : lookup 41 (run settings begun shop).transactions ≡ some new_sale
unfolding run ◌>>=◌ start_purchase ensure_sales_allowed ensure_selection get_product get_slot
    call_presence create_transaction make_transaction modify_status move_to transition
    can_transition sync_state publish
begun_transaction = refl

new_sale-IsStorable : IsStorable new_sale
new_sale-IsStorable = record {
  has_id = refl;
  has_correlation = refl;
  has_product = refl;
  has_slot = refl;
  has_currency = refl;
  session_currency = λ s e. cc;
  reserve_currency = λ r e. cc;
}

run-stores_example :
    get_transaction 41 (handle_domain_event 1 (some 41) (run settings begun shop) empty_store)
    ≡ ok (some (as_stored new_sale))
run-stores_example =
    run-stores settings begun shop 1 (some 41) empty_store 41 new_sale tt begun_transaction refl
      new_sale-IsStorable
