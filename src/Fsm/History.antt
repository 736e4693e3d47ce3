-- ===== src/Fsm/History.antt =====
-- What the engine's operations do: app/fsm/machine_fsm.py.
use flower_vending_system.Prelude.{true, false, List, [], ◌∷◌, ◌≡◌, refl, ◌⊎◌, arith}
use flower_vending_system.Prelude.Result.{ok, err, invariant_violation}
use flower_vending_system.Domain.Status.{MachineState}
use flower_vending_system.Fsm.Transitions.{is_allowed, same_state}
use flower_vending_system.Fsm.Engine.{
  TransitionRecord, Engine, can_transition, force_state, transition, transition_or_force,
}

-- The records link up: each begins where the one before it ended, the oldest at `start` and
-- the newest ending in the present state.
abbrev pub Links : MachineState → MachineState → List TransitionRecord → Type 0
Links start now [] = now ≡ start
Links start now (r ∷ rs) = (r.new_state ≡ now) × Links start r.previous_state rs

abbrev pub IsLinked : MachineState → Engine → Type 0
IsLinked start f = Links start f.state f.history

pub state_code-injective : (a b : MachineState) → same_state a b ≡ true → a ≡ b
unfolding same_state
state_code-injective a b h = ground arith

-- A transition either finds the machine in the state it asks for and changes nothing, or follows
-- an allowed edge and records it, or raises because the table has no such edge.
pub transition_lem :
    (s : MachineState) (f : Engine)
    → ((s ≡ f.state) × (transition s f ≡ ok f))
      ⊎ ((is_allowed f.state s ≡ true) × (transition s f ≡ ok (force_state s f))
          ⊎ (is_allowed f.state s ≡ false) × (transition s f ≡ err invariant_violation))
unfolding transition can_transition
transition_lem s f = ground (arith, state_code-injective s f.state)

transition_can : (s : MachineState) (f : Engine) → can_transition s f ≡ is_allowed f.state s
unfolding can_transition
transition_can s f = refl

pub force_state-IsLinked :
    (start s : MachineState) (f : Engine) → IsLinked start f → IsLinked start (force_state s f)
unfolding force_state
force_state-IsLinked start s f h = (refl, h)

-- `transition_or_force` never raises: it follows an allowed edge, or goes to its target by force.
pub transition_or_force_lem :
    (s : MachineState) (f : Engine)
    → (transition_or_force s f ≡ ok f) × (s ≡ f.state)
      ⊎ (transition_or_force s f ≡ ok (force_state s f))
unfolding transition_or_force
transition_or_force_lem s f = ground (arith, transition_can s f, transition_lem s f)
