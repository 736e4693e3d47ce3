-- ===== src/App/Startup.antt =====
-- The start of src/flower_vending/runtime/bootstrap.py: `_restore_runtime_state` and
-- `_complete_startup_flow`. The repositories are read through what they return; saving back and
-- logging are left out.
use flower_vending_system.Prelude.{
  ℕ, Bool, ◌||◌, Option, none, some, List, [], ◌∷◌, if◌then◌else◌, ltb, ◌==◌, is_some,
}
use flower_vending_system.Prelude.Int.{ℤ}
use flower_vending_system.Prelude.Dict.{Dict, lookup, insert}
use flower_vending_system.Domain.Transaction.{Transaction}
use flower_vending_system.Domain.Status.{MachineState, Blocker, set_active_transaction}
use flower_vending_system.Fsm.Transitions.{same_state}
use flower_vending_system.Fsm.Engine.{force_state}
use flower_vending_system.App.World.{
  Env, Action, JournalEntry, pure, gets, ◌>>=◌, ◌>>◌, modify, when,
}
use flower_vending_system.App.Journal.{unresolved_intents}
use flower_vending_system.App.Services.{
  modify_status, sync_state, block_sales, restore_transactions,
}
use flower_vending_system.App.Recovery.{detect_unresolved_intents}
use flower_vending_system.App.Service.{Readings, poll_health}

-- `self._fsm.force_state(state, ...)`
unfoldable pub force_to : MachineState → Action (Unit {0})
unfolding modify
force_to s = modify (λ w. record w { fsm = force_state s w.fsm })

abbrev pub add_stored : ℕ → Option Transaction → Dict Transaction → Dict Transaction
add_stored k none d = d
add_stored k (some t) d = insert k t d

-- `sorted` on a set; the order of the texts is that of the numbers that stand for them.
unfoldable pub insert_sorted : ℕ → List ℕ → List ℕ
insert_sorted n [] = n ∷ []
insert_sorted n (m ∷ ms) =
    if n == m then m ∷ ms else if ltb n m then n ∷ m ∷ ms else m ∷ insert_sorted n ms

-- `unresolved_intent_transaction_ids`
unfoldable pub intent_ids : List JournalEntry → List ℕ
unfolding insert_sorted
intent_ids [] = []
intent_ids (i ∷ is) = insert_sorted i.transaction_id (intent_ids is)

-- The transactions of open intents join the unresolved ones.
unfoldable pub join_intents :
    List ℕ → (stored : ℕ → Option Transaction) → Dict Transaction → Dict Transaction
join_intents [] stored d = d
join_intents (k ∷ ks) stored d =
    join_intents ks stored (if is_some (lookup k d) then d else add_stored k (stored k) d)

abbrev pub values : {V : Type 0} → Dict V → List V
values [] = []
values (e ∷ d) = e.1 ∷ values d

unfoldable pub keyed : List Transaction → Dict Transaction → Dict Transaction
keyed [] d = d
keyed (t ∷ ts) d = keyed ts (insert t.transaction_id t d)

-- `if unresolved:`
unfoldable pub resume_first : List Transaction → Action (Unit {0})
unfolding force_to
resume_first [] = pure tt
resume_first (t ∷ ts) = do
  modify_status (set_active_transaction (some t.transaction_id))
  block_sales Blocker.recovery_pending
  force_to MachineState.recovery_pending
  sync_state

-- `_restore_runtime_state`, for what the repository lists as unresolved and what it stores.
unfoldable pub restore_runtime_state :
    Env → List Transaction → (ℕ → Option Transaction) → Action (Unit {0})
unfolding resume_first intent_ids join_intents keyed
restore_runtime_state env listed stored = do
  intents ← gets (λ w. unresolved_intents w.journal)
  let found = values (join_intents (intent_ids intents) stored (keyed listed []))
  restore_transactions found none
  plans ← detect_unresolved_intents env
  resume_first found

abbrev pub is_booting : MachineState → Bool
is_booting s = same_state s MachineState.boot || same_state s MachineState.self_test

-- `_complete_startup_flow`
unfoldable pub complete_startup_flow : ℤ → Readings → Action (Unit {0})
unfolding force_to
complete_startup_flow critical r = do
  state ← gets (λ w. w.fsm.state)
  when (is_booting state) (force_to MachineState.idle >> sync_state)
  poll_health critical r
