-- ===== src/Examples/Machine.antt =====
-- The machine's theorems at work on a sale: src/flower_vending/app.
use flower_vending_system.Prelude.{none, some, [], ◌∷◌, refl}
use flower_vending_system.Domain.Statuses.{TransactionStatus}
use flower_vending_system.Domain.Status.{MachineState}
use flower_vending_system.App.World.{JournalEntry, ActionName, LogicalStep, JournalOutcome}
use flower_vending_system.App.Journal.{append_entry, unresolved_intents, same_action}
use flower_vending_system.App.Journal.Resolution.{Has, append_entry-resolves}
use flower_vending_system.App.Journal.Answers.{IsUnanswered, unresolved_intents_lem}
use flower_vending_system.App.Journal.Kept.{AreKept}
use flower_vending_system.App.Guard.{IsWriteAhead}
use flower_vending_system.App.Registry.{IsKeyed}
use flower_vending_system.App.Machine.{run}
use flower_vending_system.App.Machine.Registered.{run-IsKeyed}
use flower_vending_system.App.Machine.Reachable.{run-IsWriteAhead, IsJournal, run-IsJournal}
use flower_vending_system.Scenarios.{shop, settings, sale_commands}

run-IsWriteAhead_example :
    IsWriteAhead (run settings sale_commands shop).trace
    × AreKept (run settings sale_commands shop).trace (run settings sale_commands shop).journal
run-IsWriteAhead_example = run-IsWriteAhead settings sale_commands shop (tt, tt)

run-IsKeyed_example : IsKeyed (run settings sale_commands shop).transactions
run-IsKeyed_example = run-IsKeyed settings sale_commands shop tt

run-IsJournal_example : IsJournal [] (run settings sale_commands shop)
run-IsJournal_example = run-IsJournal [] settings sale_commands shop (tt, tt, tt, tt)

abbrev motor_intent : JournalEntry
motor_intent = record {
  transaction_id = 41;
  action = ActionName.motor_vend_requested;
  logical_step = LogicalStep.vend_motor;
  outcome = none;
  machine_state = MachineState.dispensing_product;
  transaction_status = some TransactionStatus.dispensing_product;
}

abbrev motor_outcome : JournalEntry
motor_outcome = record motor_intent { outcome = some JournalOutcome.succeeded }

unresolved_intents_lem_example :
    (Has motor_intent (unresolved_intents (motor_intent ∷ []))
      → IsUnanswered motor_intent (motor_intent ∷ []))
    × (IsUnanswered motor_intent (motor_intent ∷ [])
        → Has motor_intent (unresolved_intents (motor_intent ∷ [])))
unresolved_intents_lem_example = unresolved_intents_lem (motor_intent ∷ []) motor_intent

append_entry-resolves_example :
    ¬ Has motor_intent (unresolved_intents (append_entry motor_outcome (motor_intent ∷ [])))
unfolding same_action
append_entry-resolves_example =
    append_entry-resolves motor_intent motor_outcome (motor_intent ∷ []) refl refl
