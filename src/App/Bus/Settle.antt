-- ===== src/App/Bus/Settle.antt =====
-- What `publish` of app/event_bus.py raises.
use flower_vending_system.Prelude.{
  Bool, true, false, ◌||◌, List, [], ◌∷◌, ◌++◌, if◌then◌else◌, ◌≡◌, refl, append-nil, append_assoc,
}
use flower_vending_system.Prelude.Result.{Error, Result, ok, err, base_exception, exception_group}
use flower_vending_system.App.Bus.{
  HandlerResult, Subscription, returned, failed, interrupted, raise_failures, settle_from, settle,
}

abbrev is_interrupted : HandlerResult → Bool
is_interrupted interrupted = true
is_interrupted _ = false

-- Some handler ended with an exception that is no Exception.
abbrev pub any_interrupted : List Subscription → Bool
any_interrupted [] = false
any_interrupted (s ∷ ss) = is_interrupted s.result || any_interrupted ss

abbrev critical_error : Bool → HandlerResult → List Error
critical_error true (failed e) = e ∷ []
critical_error _ _ = []

-- The exceptions of the critical handlers, in the order of subscription.
abbrev pub critical_errors : List Subscription → List Error
critical_errors [] = []
critical_errors (s ∷ ss) = critical_error s.critical s.result ++ critical_errors ss

-- What the loop over `ss` ends in, with the failures kept so far.
abbrev Settles : List Subscription → List Error → Type 0
Settles ss failures = settle_from failures ss ≡ (
    if any_interrupted ss
    then err base_exception
    else raise_failures (failures ++ critical_errors ss))

settle_one :
    (c : Bool) (r : HandlerResult) (ss : List Subscription) (failures : List Error)
    → ((es : List Error) → Settles ss es)
    → Settles (record { critical = c; result = r } ∷ ss) failures
unfolding settle_from
settle_one true returned ss failures h = h failures
settle_one false returned ss failures h = h failures
settle_one true (failed e) ss failures h =
    rw (h (failures ++ (e ∷ [])), append_assoc failures (e ∷ []) (critical_errors ss)) refl
settle_one false (failed e) ss failures h = h failures
settle_one c interrupted ss failures h = refl

settle_from_lem : (ss : List Subscription) (failures : List Error) → Settles ss failures
unfolding settle_from
settle_from_lem [] failures = rw (append-nil failures) refl
settle_from_lem (s ∷ ss) failures =
    settle_one s.critical s.result ss failures (λ es. settle_from_lem ss es)

-- What a publication raises, by whether a handler was interrupted and by the exceptions of the
-- critical handlers.
abbrev pub Publishes : Bool → List Error → Result (Unit {0}) → Type 0
Publishes true es r = r ≡ err base_exception
Publishes false [] r = r ≡ ok tt
Publishes false (e ∷ []) r = r ≡ err e
Publishes false (e ∷ e' ∷ es) r = r ≡ err exception_group

raised-Publishes :
    (interrupted_one : Bool) (es : List Error) (r : Result (Unit {0}))
    → r ≡ (if interrupted_one then err base_exception else raise_failures es)
    → Publishes interrupted_one es r
raised-Publishes true es r h = h
raised-Publishes false [] r h = h
raised-Publishes false (e ∷ []) r h = h
raised-Publishes false (e ∷ e' ∷ es) r h = h

-- A publication raises the interruption of a handler if there is one; otherwise it raises what
-- the critical handlers raised, one exception itself and several as a group, and it returns if
-- they all returned: what a best-effort handler raises is dropped.
pub settle_lem :
    (ss : List Subscription) → Publishes (any_interrupted ss) (critical_errors ss) (settle ss)
unfolding settle
settle_lem ss = raised-Publishes (any_interrupted ss) (critical_errors ss) _ (settle_from_lem ss [])
