-- ===== src/Fsm/Engine.antt =====
-- app/fsm/machine_fsm.py. The history is kept newest first; a record's reason and time, which
-- only label it, and the listeners, of which the application core has none, are left out.
use flower_vending_system.Prelude.{Bool, List, [], ◌∷◌, not, if◌then◌else◌}
use flower_vending_system.Prelude.Result.{Result, ok, raise_when, invariant_violation}
use flower_vending_system.Domain.Status.{MachineState}
use flower_vending_system.Fsm.Transitions.{is_allowed, same_state}

pub record TransitionRecord : Type 0 where
  pub previous_state : MachineState
  pub new_state : MachineState

pub record Engine : Type 0 where
  pub state : MachineState
  pub history : List TransitionRecord

abbrev pub new_engine : MachineState → Engine
new_engine s = record { state = s; history = [] }

unfoldable pub can_transition : MachineState → Engine → Bool
unfolding is_allowed
can_transition target f = is_allowed f.state target

unfoldable pub force_state : MachineState → Engine → Engine
force_state target f = record f {
  state = target;
  history = record { previous_state = f.state; new_state = target } ∷ f.history;
}

unfoldable pub transition : MachineState → Engine → Result Engine
unfolding same_state force_state
transition target f =
    if same_state target f.state
    then ok f
    else raise_when (not (can_transition target f)) invariant_violation (ok (force_state target f))

-- `if can_transition(s): transition(s) else: force_state(s)`, which the orchestrators repeat.
unfoldable pub transition_or_force : MachineState → Engine → Result Engine
transition_or_force target f =
    if can_transition target f then transition target f else ok (force_state target f)
