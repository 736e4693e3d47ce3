-- ===== src/Simulators/Window/Moves.antt =====
-- simulators/devices/mock_window_controller.py: where the window stands after a command.
use flower_vending_system.Prelude.{ℕ, Option, none, ◌≡◌, refl}
use flower_vending_system.Devices.Contracts.{FaultCode, CommandPolicy, WindowPosition}
use flower_vending_system.Devices.Runner.{plain_command, cache_key, cached}
use flower_vending_system.Devices.Runner.Parts.{Ends}
use flower_vending_system.Simulators.Base.{MockDevice}
use flower_vending_system.Simulators.Base.Commands.{
  DoneOrNot, Works, Works-faults, run_command-DoneOrNot,
}
use flower_vending_system.Simulators.Window.{move_window_once, open_window, close_window, reach}

move_window_once-Works :
    (p : CommandPolicy) (to before : WindowPosition) (d : MockDevice WindowPosition (Unit {0}))
    → d.parts.body ≡ before
    → Works before to (move_window_once p to) d
unfolding move_window_once
move_window_once-Works p to before =
    Works-faults before to p.timeout FaultCode.window_fault (reach to) λ d e. record { post = refl }

-- A command to open or to close the window, under a correlation id that is new to it, leaves the
-- window open or closed if it returns, and where it was if it raises.
pub window-moves :
    (p : CommandPolicy) (cid : Option ℕ) (d : MockDevice WindowPosition (Unit {0}))
    → cached (cache_key 0 cid) d.cache ≡ none
    → cached (cache_key 1 cid) d.cache ≡ none
    → Ends (DoneOrNot d.parts.body WindowPosition.open_position) (open_window p cid d)
      × Ends (DoneOrNot d.parts.body WindowPosition.closed) (close_window p cid d)
unfolding open_window close_window
window-moves p cid d opening closing = (
  run_command-DoneOrNot _ _ p (plain_command 0 cid)
      (move_window_once p WindowPosition.open_position) refl (λ v. refl)
      (move_window_once-Works p WindowPosition.open_position d.parts.body) d opening refl,
  run_command-DoneOrNot _ _ p (plain_command 1 cid) (move_window_once p WindowPosition.closed) refl
      (λ v. refl) (move_window_once-Works p WindowPosition.closed d.parts.body) d closing refl,
)
