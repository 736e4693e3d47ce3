-- ===== src/Examples/Devices.antt =====
-- Devices at work: src/flower_vending/devices and src/flower_vending/simulators.
use flower_vending_system.Prelude.{
  ℕ, ◌-◌, ◌≤◌, true, not, some, List, [], ◌∷◌, ◌≡◌, refl, is_some, if◌then◌else◌,
}
use flower_vending_system.Prelude.Int.{pos}
use flower_vending_system.Money.Counts.{count_of}
use flower_vending_system.Devices.Contracts.{
  FaultCode, CommandPolicy, OperationalState, WindowPosition, default_policy,
}
use flower_vending_system.Devices.Errors.{returned, raised, command, ambiguous_error}
use flower_vending_system.Devices.Runner.{
  plain_command, heartbeat, run_command, activate_terminal, conclude,
}
use flower_vending_system.Devices.Runner.Parts.{Ends}
use flower_vending_system.Devices.Runner.Attempts.{
  before_attempt, Decides, run_command-Decides, run_command-not_repeated,
}
use flower_vending_system.Devices.Runner.Replay.{Call, run_calls, run_command-replays}
use flower_vending_system.Simulators.Faults.{FaultPlan, add_plan, consume_fault}
use flower_vending_system.Simulators.Base.{Mock, MockDevice, new_mock, inject_fault, start_mock}
use flower_vending_system.Simulators.Window.{reach, new_window, move_window_once}
use flower_vending_system.Simulators.Validator.{ValidatorDevice, new_validator, insert_bill}
use flower_vending_system.Simulators.Validator.Feed.{Reports, takes, insert_bill-Reports}
use flower_vending_system.Simulators.Dispenser.{
  DispenseRequest, DispenserDevice, partial_plan, dispense,
}
use flower_vending_system.Simulators.Dispenser.Accounts.{Accounts, dispense-Accounts}
use flower_vending_system.Simulators.Dispenser.Partial.{pieces, partial_plan_lem}

abbrev patient : CommandPolicy
patient = record default_policy { retry_count = 2 }

-- A fault that strikes `n` times.
abbrev plan_of : FaultCode → ℕ → FaultPlan
plan_of code n = record {
  code = code;
  remaining_hits = pos n;
  critical = true;
  delay = 0;
  paid_counts = [];
}

-- A window whose next two commands fail.
abbrev shaky_window : MockDevice WindowPosition (Unit {0})
shaky_window = inject_fault (plan_of FaultCode.transient_command_failure 2) new_window

-- A window that does not know whether it moved.
abbrev lost_window : MockDevice WindowPosition (Unit {0})
lost_window = inject_fault (plan_of FaultCode.ambiguous_physical_result 1) new_window

run_command-Decides_example :
    (k : ℕ) × Decides patient
      (plain_command 0 (some 41))
      (move_window_once patient WindowPosition.open_position)
      2
      k
      shaky_window
    × (run_command patient
          (plain_command 0 (some 41))
          (move_window_once patient WindowPosition.open_position)
          shaky_window
        ≡ conclude patient
            (plain_command 0 (some 41))
            true
            (move_window_once patient WindowPosition.open_position (
              before_attempt
                (move_window_once patient WindowPosition.open_position)
                k
                shaky_window)).0
            (move_window_once patient WindowPosition.open_position (
              before_attempt
                (move_window_once patient WindowPosition.open_position)
                k
                shaky_window)).1)
unfolding inject_fault
run_command-Decides_example =
    run_command-Decides patient (plain_command 0 (some 41))
      (move_window_once patient WindowPosition.open_position) shaky_window refl

run_command-not_repeated_example :
    run_command patient
      (plain_command 0 (some 41))
      (move_window_once patient WindowPosition.closed)
      lost_window
    ≡ (
      raised (command ambiguous_error),
      activate_terminal ambiguous_error true
          (move_window_once patient WindowPosition.closed lost_window).1,
    )
unfolding inject_fault move_window_once add_plan consume_fault
run_command-not_repeated_example =
    run_command-not_repeated patient (plain_command 0 (some 41))
      (move_window_once patient WindowPosition.closed) lost_window ambiguous_error refl refl refl

-- A window that has been told to open under key 41.
unfoldable opened_window : MockDevice WindowPosition (Unit {0})
unfolding run_command inject_fault move_window_once add_plan consume_fault
opened_window =
    (run_command patient (plain_command 0 (some 41))
      (move_window_once patient WindowPosition.open_position) shaky_window).1

-- It is told to close, under another key.
abbrev closing : List (Call (Mock WindowPosition) (Unit {0}))
closing =
    record {
      policy = default_policy;
      asked = plain_command 1 (some 42);
      operation = reach WindowPosition.closed;
    }
    ∷ []

-- The window opens and closes; asked again under the first key, it says that it opened.
run_command-replays_example :
    run_command default_policy
      (plain_command 0 (some 41))
      (move_window_once patient WindowPosition.closed)
      (run_calls closing opened_window)
    ≡ (returned tt, heartbeat OperationalState.ready (run_calls closing opened_window))
unfolding run_command inject_fault move_window_once add_plan consume_fault opened_window reach
run_command-replays_example =
    run_command-replays patient default_policy (plain_command 0 (some 41))
      (plain_command 0 (some 41)) (move_window_once patient WindowPosition.open_position)
      (move_window_once patient WindowPosition.closed) shaky_window opened_window 41 tt closing
      ((λ d. refl), tt) refl refl refl refl

-- A dispenser with one piece of 50 and four of 100 that pays partly.
abbrev stingy_dispenser : DispenserDevice
stingy_dispenser =
    inject_fault (plan_of FaultCode.partial_payout 1) (new_mock ((50, pos 1) ∷ (100, pos 4) ∷ []))

abbrev change_request : DispenseRequest
change_request = record { request_id = 41; counts = (50, 1) ∷ (100, 3) ∷ [] }

dispense-Accounts_example :
    Ends
      (λ v s. Accounts stingy_dispenser.parts.body v s.body)
      (dispense patient change_request stingy_dispenser)
unfolding inject_fault
dispense-Accounts_example = dispense-Accounts patient change_request stingy_dispenser refl

partial_plan_lem_example :
    (pieces (partial_plan change_request.counts) ≡ pieces change_request.counts - 1)
    × ((d : ℕ) → count_of d (partial_plan change_request.counts) ≤ count_of d change_request.counts)
partial_plan_lem_example = partial_plan_lem change_request.counts (refl, (refl, tt))

abbrev shaky_motor : MockDevice (List ℕ) (Unit {0})
shaky_motor = inject_fault (plan_of FaultCode.command_timeout 1) (new_mock (9 ∷ []))

-- A validator that accepts 500 and 1000.
abbrev open_validator : ValidatorDevice
open_validator =
    start_mock (new_mock (record (new_validator (500 ∷ 1000 ∷ []) true) { accepting = true }))

insert_bill-Reports_example :
    Reports
      (record { minor_units = 500; currency = 1 })
      (if takes open_validator 500 then 500 else 0)
      (not (is_some (consume_fault FaultCode.bill_jam open_validator.parts.injector).0))
      open_validator
      (insert_bill (pos 500) 1 open_validator)
unfolding start_mock
insert_bill-Reports_example = insert_bill-Reports 500 1 open_validator refl refl refl
