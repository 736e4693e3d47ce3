-- ===== src/App/Change.antt =====
-- payments/change_manager.py: reservation, payout and refund, as actions. The reserve that the
-- code passes along is the transaction's; a refund's reserve is a local object, so its own
-- status is not kept.
use flower_vending_system.Prelude.{ℕ, true, Option, none, some, ◌==◌}
use mathlib.Core.Option
use flower_vending_system.Prelude.Result.{
  Result, ok, err, change_unavailable, partial_payout, zero_division,
}
use flower_vending_system.Domain.Reserve.{
  Plan, ChangeReserve, consume_reserve, mark_reserve_ambiguous,
}
use flower_vending_system.Domain.Transaction.{
  Transaction, attach_change_reserve, mark_change_dispensed, mark_change_partial, mark_ambiguous,
}
use flower_vending_system.Money.Inventory.{MoneyInventory, reserve, release, consume}
use flower_vending_system.Money.Planning.{Search, found, exhausted, raised, plan_change}
use flower_vending_system.App.World.{
  Env, Action, PayoutReply, paid_out, paid_partially, pure, raise, lift, gets, ◌>>=◌, ◌>>◌, modify,
  if_else, now, require, modify_transaction, call_payout,
}

-- `self._inventory.reserve(transaction_id, plan)`
unfoldable pub reserve_money : ℕ → Plan → Action ChangeReserve
unfolding ◌>>=◌
reserve_money tid plan = do
  (r, m) ← lift (← gets (λ w. reserve tid plan w.money))
  modify (λ w. record w { money = m })
  pure r

unfoldable pub modify_money : (MoneyInventory → MoneyInventory) → Action (Unit {0})
unfolding modify
modify_money f = modify (λ w. record w { money = f w.money })

abbrev plan_result : Search → Result Plan
plan_result (found p) = ok p
plan_result exhausted = err change_unavailable
plan_result raised = err zero_division

unfoldable pub find_plan : ℕ → Action Plan
unfolding ◌>>=◌
find_plan target = do lift (← gets (λ w. plan_result (plan_change target w.money)))

abbrev pub no_reserve : Transaction → Transaction
no_reserve t = record t { change_reserve = none }

-- `if reserve is not None: release(reserve); transaction.change_reserve = None`
unfoldable pub release_attached : ℕ → Option ChangeReserve → Action (Unit {0})
unfolding modify_money
release_attached tid none = pure tt
release_attached tid (some r) = modify_money (release r.counts) >> modify_transaction tid no_reserve

-- The part of `finalize_reserve` with change due.
unfoldable pub reserve_due : Env → ℕ → ℕ → Action (Unit {0})
reserve_due env tid due = do
  plan ← find_plan due
  r ← reserve_money tid plan
  at ← now env
  modify_transaction tid (attach_change_reserve r at)

unfoldable pub finalize_reserve : Env → ℕ → Action (Unit {0})
unfolding reserve_due
finalize_reserve env tid = do
  t ← require tid
  release_attached tid t.change_reserve
  if_else (t.change_due.minor_units == 0) (pure tt) (reserve_due env tid t.change_due.minor_units)

abbrev pub map_reserve : (ChangeReserve → ChangeReserve) → Transaction → Transaction
map_reserve f t = record t { change_reserve = Option.map f t.change_reserve }

abbrev drifted : MoneyInventory → MoneyInventory
drifted m = record m { drift_detected = true }

-- What `dispense` does with the dispenser's answer.
unfoldable pub settle_payout : Env → ℕ → ChangeReserve → PayoutReply → Action (Unit {0})
unfolding modify_money
settle_payout env tid r paid_out = do
  modify_money (consume r.counts)
  at ← now env
  modify_transaction tid (λ t. mark_change_dispensed at (map_reserve consume_reserve t))
settle_payout env tid r paid_partially = do
  modify_money drifted
  at ← now env
  modify_transaction tid (λ t. mark_change_partial at (map_reserve mark_reserve_ambiguous t))
  raise partial_payout
settle_payout env tid r _ = do
  modify_money drifted
  at ← now env
  modify_transaction tid (λ t. mark_ambiguous at (map_reserve mark_reserve_ambiguous t))
  raise change_unavailable

-- `prepare_payout_request` and the call: nothing is asked of the dispenser without a reserve.
unfoldable pub pay_reserve : Env → ℕ → Option ChangeReserve → Action (Unit {0})
pay_reserve env tid none = raise change_unavailable
pay_reserve env tid (some r) = call_payout env.payout r.counts >>= settle_payout env tid r

unfoldable pub dispense_change : Env → ℕ → Action (Unit {0})
unfolding pay_reserve
dispense_change env tid = do
  t ← require tid
  if_else (t.change_due.minor_units == 0) (pure tt) (pay_reserve env tid t.change_reserve)

unfoldable pub settle_refund : ChangeReserve → PayoutReply → Action (Unit {0})
unfolding modify_money
settle_refund r paid_out = modify_money (consume r.counts)
settle_refund r paid_partially = modify_money drifted >> raise partial_payout
settle_refund r _ = modify_money drifted >> raise change_unavailable

unfoldable pub dispense_refund : Env → ℕ → ℕ → Action (Unit {0})
unfolding settle_refund
dispense_refund env tid amount = if_else (amount == 0) (pure tt) do
  plan ← find_plan amount
  r ← reserve_money tid plan
  reply ← call_payout env.payout r.counts
  settle_refund r reply
