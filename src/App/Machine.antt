-- ===== src/App/Machine.antt =====
-- The machine as one step function: the command bus with the handlers that app/bootstrap.py
-- registers on it, and the calls that the background loops, the facade and the start make.
-- Whoever sent a command sees its exception; the machine goes on from the state that it left.
pub mod Invariant
pub mod Reachable
pub mod Registered
use flower_vending_system.Prelude.{ℕ, Bool, Option, List, [], ◌∷◌}
use flower_vending_system.Prelude.Int.{ℤ}
use flower_vending_system.Prelude.Result.{Result}
use flower_vending_system.Domain.Transaction.{Transaction}
use flower_vending_system.App.World.{World, Env, Action, ValidatorEventType, pure, ◌>>=◌, ◌>>◌}
use flower_vending_system.App.Payment.Events.{process_validator_event}
use flower_vending_system.App.Pickup.{poll_once, force_timeout_now}
use flower_vending_system.App.Vending
use flower_vending_system.App.Recovery
use flower_vending_system.App.Service.{Readings}
use flower_vending_system.App.Service
use flower_vending_system.App.Startup.{restore_runtime_state, complete_startup_flow}

pub data Command : Type 0 where
  start_purchase : (cid pid slot : ℕ) (price : ℤ) (currency : ℕ) → Command
  accept_cash cancel_purchase confirm_pickup recover_transaction : (tid : ℕ) → Command
  enter_service_mode exit_service_mode : Command
  validator_event : ValidatorEventType → (bill : Option ℕ) → Command
  poll_health : Readings → Command
  poll_pickup force_pickup_timeout : Command
  restore : (listed : List Transaction) (stored : ℕ → Option Transaction) → Command
  complete_startup : Readings → Command

-- The devices, the pick-up time-out and the critical temperature.
pub record Settings : Type 0 where
  pub env : Env
  pub pickup_timeout : ℕ
  pub critical : ℤ

unfoldable pub discard : {A : Type 0} → Action A → Action (Unit {0})
discard m = m >> pure tt

-- `CommandBus.dispatch`, as wired.
unfoldable pub dispatch : Settings → Command → Action (Unit {0})
unfolding discard
dispatch s (Command.start_purchase cid pid slot price currency) =
    discard (Vending.start_purchase s.env cid pid slot price currency)
dispatch s (Command.accept_cash tid) = discard (Vending.accept_cash s.env tid)
dispatch s (Command.cancel_purchase tid) = discard (Vending.cancel_purchase s.env tid)
dispatch s (Command.confirm_pickup tid) = discard (Vending.handle_confirm_pickup s.env tid)
dispatch s (Command.recover_transaction tid) = discard (Recovery.recover_transaction s.env tid)
dispatch s Command.enter_service_mode = discard Service.enter_service_mode
dispatch s Command.exit_service_mode = discard Service.exit_service_mode
dispatch s (Command.validator_event type bill) =
    process_validator_event s.env s.pickup_timeout type bill
dispatch s (Command.poll_health r) = Service.poll_health s.critical r
dispatch s Command.poll_pickup = poll_once s.env s.pickup_timeout
dispatch s Command.force_pickup_timeout = discard (force_timeout_now s.env)
dispatch s (Command.restore listed stored) = restore_runtime_state s.env listed stored
dispatch s (Command.complete_startup r) = complete_startup_flow s.critical r

unfoldable pub step : Settings → Command → World → World
unfolding dispatch
step s c w = (dispatch s c w).1

unfoldable pub run : Settings → List Command → World → World
unfolding step
run s [] w = w
run s (c ∷ cs) w = run s cs (step s c w)
