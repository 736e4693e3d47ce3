-- ===== src/App/Services.antt =====
-- app/services/machine_status_service.py, app/services/inventory_service.py,
-- app/orchestrators/transaction_coordinator.py and the calls of the state machine, as actions.
use flower_vending_system.Prelude.{
  ℕ, Bool, not, ◌||◌, Option, none, some, List, [], ◌∷◌, ◌==◌, if◌then◌else◌, is_some,
}
use flower_vending_system.Prelude.Int.{ℤ}
use flower_vending_system.Prelude.Dict.{Dict, lookup, insert}
use flower_vending_system.Prelude.Result.{
  Result, ok, err, map_ok, raise_when, value_error, sale_blocked, concurrency_conflict,
  product_unavailable, slot_unavailable,
}
use flower_vending_system.Domain.Amount.{Amount, make_currency, make_amount}
use flower_vending_system.Domain.Statuses.{is_terminal, needs_recovery}
use flower_vending_system.Domain.Transaction.{Transaction, new_transaction}
use flower_vending_system.Domain.Slot.{Slot, Product, ensure_sellable, decrement}
use flower_vending_system.Domain.Status.{
  MachineState, Blocker, MachineStatus, set_machine_state, block, unblock, sales_allowed,
}
use flower_vending_system.Fsm.Engine.{Engine, transition, transition_or_force}
use flower_vending_system.App.World.{
  World, Env, Action, pure, lift, gets, ◌>>=◌, ◌>>◌, modify, raise_if, now,
}

unfoldable pub modify_status : (MachineStatus → MachineStatus) → Action (Unit {0})
unfolding modify
modify_status f = modify (λ w. record w { status = f w.status })

-- `set_machine_state(self._fsm.current_state)`
unfoldable pub sync_state : Action (Unit {0})
unfolding modify_status
sync_state w = modify_status (set_machine_state w.fsm.state) w

unfoldable pub block_sales : Blocker → Action (Unit {0})
unfolding modify_status
block_sales b = modify_status (block b)

unfoldable pub unblock_sales : Blocker → Action (Unit {0})
unfolding modify_status
unblock_sales b = modify_status (unblock b)

unfoldable pub ensure_sales_allowed : Action (Unit {0})
unfolding raise_if
ensure_sales_allowed w = raise_if (not (sales_allowed w.status)) sale_blocked w

unfoldable pub set_engine : Result Engine → Action (Unit {0})
set_engine (ok f) w = (ok tt, record w { fsm = f })
set_engine (err e) w = (err e, w)

-- `self._fsm.transition(state, ...)`
unfoldable pub move_to : MachineState → Action (Unit {0})
unfolding set_engine
move_to s w = set_engine (transition s w.fsm) w

-- `if can_transition(state): transition(state) else: force_state(state)`
unfoldable pub move_or_force : MachineState → Action (Unit {0})
unfolding set_engine
move_or_force s w = set_engine (transition_or_force s w.fsm) w

-- `TransactionId.new()`, `CorrelationId(...)`, `ProductId(...)`, `SlotId(...)` and
-- `Amount(price, Currency(currency))`: each refuses an empty text.
unfoldable pub make_transaction : ℕ → ℕ → ℕ → ℕ → ℤ → ℕ → ℕ → Result Transaction
make_transaction tid cid pid sid price currency at =
    raise_when (tid == 0 || (cid == 0 || (pid == 0 || sid == 0))) value_error
      (elim (make_currency currency) [
        | ok c ↦ map_ok (λ (p : Amount). new_transaction tid cid pid sid p at) (make_amount price c)
        | err e ↦ err e
      ])

unfoldable pub create_transaction : Env → ℕ → ℕ → ℕ → ℤ → ℕ → Action Transaction
create_transaction env cid pid sid price currency = do
  raise_if (is_some (← gets (λ w. w.active_id))) concurrency_conflict
  tid ← gets (λ w. env.new_id w.tick)
  at ← now env
  t ← lift (make_transaction tid cid pid sid price currency at)
  modify (λ w. record w { transactions = insert tid t w.transactions; active_id = some tid })
  pure t

-- `TransactionCoordinator.active`
abbrev pub find_active : Option ℕ → Dict Transaction → Option Transaction
find_active none ts = none
find_active (some tid) ts = lookup tid ts

unfoldable pub active : World → Option Transaction
active w = find_active w.active_id w.transactions

abbrev pub cleared : ℕ → Option ℕ → Option ℕ
cleared tid none = none
cleared tid (some a) = if a == tid then none else some a

unfoldable pub clear_active : ℕ → Action (Unit {0})
unfolding modify
clear_active tid = modify (λ w. record w { active_id = cleared tid w.active_id })

-- `unresolved_transactions`
abbrev pub is_unresolved : Transaction → Bool
is_unresolved t = needs_recovery t.recovery_status || not (is_terminal t.status)

unfoldable pub unresolved : Dict Transaction → List Transaction
unresolved [] = []
unresolved ((k, t) ∷ ts) = if is_unresolved t then t ∷ unresolved ts else unresolved ts

-- `restore_transactions`, without an active id given: the first open transaction is active.
unfoldable pub first_open : List Transaction → Option ℕ
first_open [] = none
first_open (t ∷ ts) = if is_terminal t.status then first_open ts else some t.transaction_id

unfoldable pub by_id : List Transaction → Dict Transaction → Dict Transaction
by_id [] d = d
by_id (t ∷ ts) d = by_id ts (insert t.transaction_id t d)

abbrev or_else : Option ℕ → Option ℕ → Option ℕ
or_else none o = o
or_else (some a) o = some a

unfoldable pub restore_transactions : List Transaction → Option ℕ → Action (Unit {0})
restore_transactions ts given =
    modify (λ w. record w { transactions = by_id ts []; active_id = or_else given (first_open ts) })

-- `InventoryService`
unfoldable pub get_product : ℕ → World → Result Product
get_product pid w = elim (lookup pid w.products) [
  | none ↦ err product_unavailable
  | some p ↦ raise_when (not p.enabled) product_unavailable (ok p)
]

unfoldable pub get_slot : ℕ → World → Result Slot
get_slot sid w = elim (lookup sid w.slots) [ none ↦ err slot_unavailable | some s ↦ ok s ]

unfoldable pub ensure_selection : ℕ → ℕ → Action Slot
ensure_selection pid sid = do
  p ← lift (← gets (get_product pid))
  s ← lift (← gets (get_slot sid))
  raise_if (not (s.product_id == p.product_id)) slot_unavailable
  lift (ensure_sellable s (ok s))

unfoldable pub mark_vended : ℕ → Action (Unit {0})
mark_vended sid = do
  s ← lift (← gets (get_slot sid))
  s' ← lift (decrement s)
  modify (λ w. record w { slots = insert sid s' w.slots })
