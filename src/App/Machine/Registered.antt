-- ===== src/App/Machine/Registered.antt =====
-- The registry of transactions in every state that commands lead to.
use flower_vending_system.Prelude.{List}
use flower_vending_system.App.World.{World}
use flower_vending_system.App.Registry.{IsKeyed}
use flower_vending_system.App.Keeps.Stable.{Stable}
use flower_vending_system.App.Machine.{Command, Settings, run}
use flower_vending_system.App.Machine.Invariant.{run-keeps}

IsKeyed-Stable : Stable (λ w. IsKeyed w.transactions)
IsKeyed-Stable = record {
  on_tick = λ w h. h;
  on_publish = λ w e h. h;
  on_entry = λ w e h. h;
  on_call = λ w c g h. h;
  on_transactions = λ w ts k h. k h;
  on_active = λ w o h. h;
  on_money = λ w m h. h;
  on_slots = λ w s h. h;
  on_deadlines = λ w d h. h;
  on_handling = λ w i h. h;
  on_status = λ w s h. h;
  on_fsm = λ w s h. h;
}

-- In every state that commands lead to, a restart among them, the registry has each transaction
-- once, under the transaction's own identifier, if it had before them.
pub run-IsKeyed :
    (s : Settings) (cs : List Command) (w : World)
    → IsKeyed w.transactions
    → IsKeyed (run s cs w).transactions
run-IsKeyed s cs w h = run-keeps IsKeyed-Stable s cs w h
