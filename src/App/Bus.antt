-- ===== src/App/Bus.antt =====
-- app/event_bus.py and app/command_bus.py. `gather` runs the handlers; the model takes how each
-- one ended. Logging is left out.
pub mod Settle
use flower_vending_system.Prelude.{Bool, true, false, List, [], ◌∷◌, ◌++◌}
use flower_vending_system.Prelude.Result.{Error, Result, ok, err, exception_group, base_exception}
use flower_vending_system.App.World.{Action, Event, publish, ◌>>◌}

-- How a handler ended: normally, with an Exception, or with another BaseException, such as
-- CancelledError.
pub data HandlerResult : Type 0 where
  returned : HandlerResult
  failed : Error → HandlerResult
  interrupted : HandlerResult

pub record Subscription : Type 0 where
  pub critical : Bool
  pub result : HandlerResult

abbrev keep_failure : Bool → Error → List Error → List Error
keep_failure true e es = es ++ (e ∷ [])
keep_failure false e es = es

-- The end of `publish`: one failure is raised itself, several as a group.
abbrev pub raise_failures : List Error → Result (Unit {0})
raise_failures [] = ok tt
raise_failures (e ∷ []) = err e
raise_failures (e ∷ e' ∷ es) = err exception_group

-- The loop over the results.
unfoldable pub settle_from : List Error → List Subscription → Result (Unit {0})
settle_from failures [] = raise_failures failures
settle_from failures (s ∷ ss) = elim s.result [
  | returned ↦ settle_from failures ss
  | failed e ↦ settle_from (keep_failure s.critical e failures) ss
  | interrupted ↦ err base_exception
]

unfoldable pub settle : List Subscription → Result (Unit {0})
unfolding settle_from
settle ss = settle_from [] ss

abbrev pub result_of : Result (Unit {0}) → HandlerResult
result_of (ok u) = returned
result_of (err e) = failed e

-- `publish` of an event to which the application core subscribes one handler.
unfoldable pub publish_to : Bool → Action (Unit {0}) → Event → Action (Unit {0})
unfolding settle publish
publish_to critical handler e = publish e >> λ w.
    let (r, w') = handler w in
    (settle (record { critical = critical; result = result_of r } ∷ []), w')
