-- ===== src/App/Pickup.antt =====
-- app/orchestrators/pickup_timeout_coordinator.py. The time-out is in the clock's units. The
-- lock is left out: a handler's steps are one action.
use flower_vending_system.Prelude.{
  ℕ, ◌+◌, Bool, true, false, not, ◌||◌, Option, none, some, List, [], ◌∷◌, ◌++◌, ltb, ◌==◌,
  if◌then◌else◌, contains, is_some,
}
use flower_vending_system.Prelude.Dict.{Dict, lookup, insert, erase}
use flower_vending_system.Prelude.Result.{Result, ok, err, runtime_error}
use flower_vending_system.Domain.Statuses.{is_waiting_for_pickup}
use flower_vending_system.Domain.Transaction.{
  Transaction, mark_faulted, mark_pickup_timed_out_window_closed,
}
use flower_vending_system.Domain.Status.{MachineState, Blocker}
use flower_vending_system.Fsm.Transitions.{same_state}
use flower_vending_system.App.World.{
  World, Env, Action, ActionName, LogicalStep, JournalOutcome, DeviceCall, Event, pure, gets,
  or_raise, ◌>>=◌, ◌>>◌, modify, raise_if, when, if_else, now, publish, call, modify_transaction,
}
use flower_vending_system.App.Journal.{record_intent, record_outcome}
use flower_vending_system.App.Services.{
  sync_state, block_sales, move_to, move_or_force, active, unresolved, is_unresolved,
}

abbrev pub set_deadlines : (Dict ℕ → Dict ℕ) → World → World
set_deadlines f w = record w { deadlines = f w.deadlines }

-- `_arm_waiting_transaction`; `setdefault` keeps a deadline that is there.
unfoldable pub arm : ℕ → Transaction → Dict ℕ → Dict ℕ
arm timeout t ds =
    if not (is_waiting_for_pickup t.status)
    then erase t.transaction_id ds
    else if is_some (lookup t.transaction_id ds)
    then ds
    else insert t.transaction_id (t.updated_at + timeout) ds

abbrev pub arm_found : ℕ → Option Transaction → Dict ℕ → Dict ℕ
arm_found timeout none ds = ds
arm_found timeout (some t) ds = arm timeout t ds

unfoldable pub handle_delivery_window_opened : ℕ → ℕ → Action (Unit {0})
handle_delivery_window_opened timeout tid =
    modify (λ w. set_deadlines (arm_found timeout (lookup tid w.transactions)) w)

unfoldable pub handle_pickup_finished : ℕ → Action (Unit {0})
handle_pickup_finished tid = modify (set_deadlines (erase tid))

-- The transactions that `_sync_waiting_transactions` looks at: the unresolved ones, and the
-- active one if it is not among them.
unfoldable pub candidates : World → List Transaction
candidates w = elim (active w) [
  | none ↦ unresolved w.transactions
  | some t ↦
      if is_unresolved t then unresolved w.transactions else unresolved w.transactions ++ (t ∷ [])
]

unfoldable pub waiting_ids : List Transaction → List ℕ
waiting_ids [] = []
waiting_ids (t ∷ ts) =
    if is_waiting_for_pickup t.status then t.transaction_id ∷ waiting_ids ts else waiting_ids ts

unfoldable pub arm_all : ℕ → List Transaction → Dict ℕ → Dict ℕ
arm_all timeout [] ds = ds
arm_all timeout (t ∷ ts) ds =
    arm_all timeout ts (if is_waiting_for_pickup t.status then arm timeout t ds else ds)

unfoldable pub keep_only : List ℕ → Dict ℕ → Dict ℕ
keep_only ids [] = []
keep_only ids ((k, d) ∷ ds) = if contains k ids then (k, d) ∷ keep_only ids ds else keep_only ids ds

-- `_sync_waiting_transactions`
unfoldable pub sync_waiting : ℕ → World → Dict ℕ
sync_waiting timeout w =
    let cs = candidates w in keep_only (waiting_ids cs) (arm_all timeout cs w.deadlines)

-- The loop of `_collect_expired`: what has expired and is not being handled.
unfoldable pub expired_ids : ℕ → List ℕ → Dict ℕ → List ℕ
expired_ids at handling [] = []
expired_ids at handling ((k, d) ∷ ds) =
    if ltb at d || contains k handling
    then expired_ids at handling ds
    else k ∷ expired_ids at handling ds

unfoldable pub erase_all : List ℕ → Dict ℕ → Dict ℕ
erase_all [] ds = ds
erase_all (k ∷ ks) ds = erase_all ks (erase k ds)

unfoldable pub collect_expired : Env → ℕ → Action (List ℕ)
unfolding sync_waiting expired_ids
collect_expired env timeout = do
  at ← now env
  modify (λ w. record w { deadlines = sync_waiting timeout w })
  expired ← gets (λ w. expired_ids at w.handling w.deadlines)
  modify (λ w. record w {
    deadlines = erase_all expired w.deadlines;
    handling = expired ++ w.handling;
  })
  pure expired

-- The window did not close.
unfoldable pub timeout_close_failed : Env → ℕ → Action (Unit {0})
timeout_close_failed env tid = do
  at ← now env
  modify_transaction tid (mark_faulted at)
  move_or_force MachineState.fault
  sync_state
  block_sales Blocker.delivery_window_fault
  record_outcome tid ActionName.window_close_requested LogicalStep.timeout_close_window
      JournalOutcome.ambiguous
  publish (Event.pickup_timeout_window_close_failed tid)
  publish (Event.machine_faulted (some tid))

-- The window has closed on a product that nobody took.
unfoldable pub timeout_closed : Env → ℕ → Action (Unit {0})
timeout_closed env tid = do
  record_outcome tid ActionName.window_close_requested LogicalStep.timeout_close_window
      JournalOutcome.succeeded
  at ← now env
  modify_transaction tid (mark_pickup_timed_out_window_closed at)
  state ← gets (λ w. w.fsm.state)
  if_else (same_state state MachineState.closing_delivery_window)
      (move_to MachineState.recovery_pending) (move_or_force MachineState.recovery_pending)
  sync_state
  block_sales Blocker.recovery_pending
  publish (Event.pickup_timeout_window_closed tid)
  publish (Event.manual_review_required (some tid))

unfoldable pub start_closing : Action (Unit {0})
start_closing = do
  state ← gets (λ w. w.fsm.state)
  when (same_state state MachineState.waiting_for_customer_pickup)
      (move_to MachineState.closing_delivery_window >> sync_state)

abbrev pub on_reply : Action (Unit {0}) → Action (Unit {0}) → Result (Unit {0}) → Action (Unit {0})
on_reply good bad (ok u) = good
on_reply good bad (err e) = bad

abbrev pub reply_of : Action (Unit {0}) → Action (Result (Unit {0}))
reply_of m w = let (r, w') = m w in (ok r, w')

-- The body of `_handle_timeout` for a transaction that still waits.
unfoldable pub close_timed_out : Env → ℕ → Bool → Action (Unit {0})
unfolding start_closing timeout_closed timeout_close_failed
close_timed_out env tid forced = do
  publish (Event.pickup_timeout_elapsed tid forced)
  start_closing
  record_intent tid ActionName.window_close_requested LogicalStep.timeout_close_window
  reply ← reply_of (call env.close_ok DeviceCall.close_window)
  on_reply (timeout_closed env tid) (timeout_close_failed env tid) reply

abbrev pub waits : Option Transaction → Bool
waits none = false
waits (some t) = is_waiting_for_pickup t.status

unfoldable pub drop_id : ℕ → List ℕ → List ℕ
drop_id a [] = []
drop_id a (x ∷ xs) = if a == x then drop_id a xs else x ∷ drop_id a xs

-- The `finally` clause.
unfoldable pub stop_handling : ℕ → World → World
stop_handling tid w = record w {
  handling = drop_id tid w.handling;
  deadlines = erase tid w.deadlines;
}

abbrev pub finally : Action (Unit {0}) → (World → World) → Action (Unit {0})
finally m f w = let (r, w') = m w in (r, f w')

unfoldable pub handle_timeout : Env → ℕ → Bool → Action (Unit {0})
unfolding close_timed_out when
handle_timeout env tid forced =
    finally (λ w. when (waits (lookup tid w.transactions)) (close_timed_out env tid forced) w)
      (stop_handling tid)

-- `poll_once`
unfoldable pub handle_all : Env → List ℕ → Action (Unit {0})
handle_all env [] = pure tt
handle_all env (tid ∷ tids) = handle_timeout env tid false >> handle_all env tids

unfoldable pub poll_once : Env → ℕ → Action (Unit {0})
poll_once env timeout = collect_expired env timeout >>= handle_all env

unfoldable pub first_waiting : List Transaction → Option Transaction
first_waiting [] = none
first_waiting (t ∷ ts) = if is_waiting_for_pickup t.status then some t else first_waiting ts

-- `_first_waiting_transaction`
unfoldable pub first_waiting_transaction : World → Option Transaction
first_waiting_transaction w =
    if waits (active w) then active w else first_waiting (unresolved w.transactions)

unfoldable pub force_timeout_now : Env → Action ℕ
force_timeout_now env = do
  t ← or_raise (← gets first_waiting_transaction) runtime_error
  raise_if (contains t.transaction_id (← gets (λ w. w.handling))) runtime_error
  modify (λ w. record w {
    deadlines = erase t.transaction_id w.deadlines;
    handling = t.transaction_id ∷ w.handling;
  })
  handle_timeout env t.transaction_id true
  pure t.transaction_id
