-- ===== src/App/Outcome.antt =====
-- How the handlers of src/flower_vending/app/orchestrators end.
pub mod Timeout
pub mod Vend
pub mod Delivery
pub mod Refund
pub mod Recover
pub mod Payout
pub mod Purchase
pub mod Opening
pub mod Pickup
use flower_vending_system.Prelude.{ℕ, Bool, true, false, some, ◌≡◌, arith}
use flower_vending_system.Prelude.Dict.{Dict, lookup, insert, lookup-insert}
use flower_vending_system.Domain.Transaction.{Transaction}
use flower_vending_system.Domain.Status.{MachineState, MachineStatus, Blocker, block}
use flower_vending_system.App.World.{World}

-- The transaction is up for an operator, the machine's state and its published state are `s`,
-- and nothing is sold.
pub record IsStopped (tid : ℕ) (t : Transaction) (s : MachineState) (w : World) : Type 0 where
  pub stored : lookup tid w.transactions ≡ some t
  pub state : w.fsm.state ≡ s
  pub published : w.status.machine_state ≡ s
  pub no_sales : w.status.allow_cash_sales ≡ false
  pub no_vending : w.status.allow_vending ≡ false

pub lookup-inserted : {V : Type 0} (k : ℕ) (v : V) (d : Dict V) → lookup k (insert k v d) ≡ some v
lookup-inserted k v d = ground (arith, lookup-insert k k v d)

pub block-no_sales : (b : Blocker) (s : MachineStatus) → (block b s).allow_cash_sales ≡ false
block-no_sales b s = ground arith

pub block-no_vending : (b : Blocker) (s : MachineStatus) → (block b s).allow_vending ≡ false
block-no_vending b s = ground arith
