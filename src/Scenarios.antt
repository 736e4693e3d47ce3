-- ===== src/Scenarios.antt =====
-- A machine with one product, and the sales that the tests and the witnesses run on it.
use flower_vending_system.Prelude.{List, ℕ, ◌+◌, true, false, none, some, [], ◌∷◌}
use flower_vending_system.Prelude.Int.{pos}
use flower_vending_system.Prelude.Result.{Result}
use flower_vending_system.Domain.Status.{MachineState, MachineStatus}
use flower_vending_system.Fsm.Engine.{new_engine}
use flower_vending_system.Money.Inventory.{MoneyInventory}
use flower_vending_system.Domain.Amount.{Amount}
use flower_vending_system.Domain.Transaction.{
  Transaction, new_transaction, start_session, confirmed_transaction, mark_change_dispensed,
  mark_product_dispensed, mark_window_opened,
}
use flower_vending_system.App.Machine.{Command, Settings}
use flower_vending_system.App.World.{
  World, Env, Action, PayoutReply, ValidatorEventType, ◌>>=◌, ◌>>◌,
}
use flower_vending_system.App.Vending.{start_purchase, accept_cash, handle_confirm_pickup}
use flower_vending_system.App.Payment.Events.{process_validator_event}

-- One piece of 50, nine of 100 and three of 500.
abbrev pub change_money : MoneyInventory
change_money = record {
  currency = 1;
  accounting = (50, pos 1) ∷ (100, pos 9) ∷ (500, pos 3) ∷ [];
  reserved = [];
  exact_change_only = false;
  drift_detected = false;
}

abbrev pub idle_status : MachineStatus
idle_status = record {
  machine_state = MachineState.idle;
  in_service_mode = false;
  exact_change_only = false;
  sale_blockers = [];
  active_transaction_id = none;
  allow_cash_sales = true;
  allow_vending = true;
}

abbrev pub shop : World
shop = record {
  fsm = new_engine MachineState.idle;
  status = idle_status;
  transactions = [];
  active_id = none;
  money = change_money;
  accepted_bills = 100 ∷ 500 ∷ 1000 ∷ [];
  products = (7, record { product_id = 7; enabled = true }) ∷ [];
  slots =
      (
        3,
        record {
          slot_id = 3;
          product_id = 7;
          capacity = pos 5;
          quantity = pos 2;
          is_enabled = true;
        },
      )
      ∷ [];
  deadlines = [];
  handling = [];
  journal = [];
  trace = [];
  tick = 0;
}

-- Every device does what it is asked.
abbrev pub good_devices : Env
good_devices = record {
  clock = λ n. 1000 + n;
  new_id = λ n. 41;
  enable_ok = λ n. true;
  disable_ok = λ n. true;
  vend_ok = λ n. true;
  open_ok = λ n. true;
  close_ok = λ n. true;
  payout = λ n. PayoutReply.paid_out;
  has_slot_sensor = true;
  presence = λ n. some (record { has_product = true; confidence = 900 });
}

unfoldable pub sale : Env → Action ℕ
unfolding start_purchase accept_cash process_validator_event handle_confirm_pickup
sale env = do
  tid ← start_purchase env 5 7 3 (pos 350) 1
  accept_cash env tid
  process_validator_event env 60 ValidatorEventType.bill_stacked (some 100)
  process_validator_event env 60 ValidatorEventType.bill_stacked (some 500)
  handle_confirm_pickup env tid

sold : Result ℕ × World
sold = sale good_devices shop

abbrev rub : ℕ → Amount
rub n = record { minor_units = n; currency = 1 }

-- 600 have been put in for 350.
abbrev pub paying : Transaction
paying = record (start_session 1001 (new_transaction 41 5 7 3 (rub 350) 1000)) {
  accepted_amount = rub 600;
}

-- The payment is confirmed and the change of 250 has been paid out.
abbrev pub paid : Transaction
paid = mark_change_dispensed 1003 (confirmed_transaction 1002 paying)

-- The machine with one transaction, in a given state.
abbrev pub shop_with : Transaction → MachineState → World
shop_with t s = record shop { transactions = (41, t) ∷ []; active_id = some 41; fsm = new_engine s }

abbrev pub waiting : Transaction
waiting = mark_window_opened 1005 (mark_product_dispensed 1004 paid)

-- The window's motor and the product's motor are broken.
abbrev pub broken_devices : Env
broken_devices = record good_devices { vend_ok = λ n. false; close_ok = λ n. false }

abbrev pub settings : Settings
settings = record { env = good_devices; pickup_timeout = 60; critical = pos 8 }

abbrev pub sale_commands : List Command
sale_commands =
    Command.start_purchase 5 7 3 (pos 350) 1
    ∷ Command.accept_cash 41
    ∷ Command.validator_event ValidatorEventType.bill_stacked (some 100)
    ∷ Command.validator_event ValidatorEventType.bill_stacked (some 500)
    ∷ Command.poll_pickup
    ∷ Command.confirm_pickup 41
    ∷ []
