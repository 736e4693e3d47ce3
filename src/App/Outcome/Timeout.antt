-- ===== src/App/Outcome/Timeout.antt =====
-- How `_handle_timeout` of app/orchestrators/pickup_timeout_coordinator.py ends.
use flower_vending_system.Prelude.{
  ℕ, suc, Bool, true, false, some, List, [], ◌∷◌, ◌≡◌, refl, arith, contains, inl, inr, Bool-cases,
  if◌then◌else◌,
}
use flower_vending_system.Prelude.Dict.{lookup}
use flower_vending_system.Prelude.Result.{Error, ok, err, device_error}
use flower_vending_system.Domain.Statuses.{is_waiting_for_pickup}
use flower_vending_system.Domain.Transaction.{
  Transaction, mark_faulted, mark_pickup_timed_out_window_closed,
}
use flower_vending_system.Domain.Status.{MachineState, MachineStatus}
use flower_vending_system.Fsm.Engine.{Engine}
use flower_vending_system.Fsm.Transitions.{same_state, is_allowed}
use flower_vending_system.App.World.{JournalEntry, Effect, World, Env, Action, when}
use flower_vending_system.App.Wp.{Wp, Returns, Wp-map, Wp-gets, Wp-bind, Wp-bind}
use flower_vending_system.App.Wp.Calls.{Wp-reply_of-call, Wp-when, Wp-finally, wp_rules}
use flower_vending_system.App.Wp.Writes.{
  Wp-move_to, Wp-publish, Wp-record_intent, Wp-sync_state, Wp-publish,
}
use flower_vending_system.App.Outcome.{IsStopped, lookup-inserted, block-no_sales, block-no_vending}
use flower_vending_system.App.Pickup.{
  start_closing, timeout_closed, timeout_close_failed, close_timed_out, handle_timeout, on_reply,
  waits, stop_handling, drop_id,
}

timeout_close_failed_lem :
    (env : Env) (tid : ℕ) (w : World) {t : Transaction}
    → lookup tid w.transactions ≡ some t
    → Returns
        (timeout_close_failed env tid)
        (λ u w'. IsStopped tid (mark_faulted (env.clock w.tick) t) MachineState.fault w')
        w
unfolding timeout_close_failed
timeout_close_failed_lem env tid w {t} h =
    search (wp_rules, lookup-inserted, block-no_sales, block-no_vending) depth 60

closing_to_recovery :
    (s : MachineState)
    → same_state s MachineState.closing_delivery_window ≡ true
    → is_allowed s MachineState.recovery_pending ≡ true
unfolding same_state is_allowed
closing_to_recovery s h = ground arith

timeout_closed_lem :
    (env : Env) (tid : ℕ) (w : World) {t : Transaction}
    → lookup tid w.transactions ≡ some t
    → Returns
        (timeout_closed env tid)
        (λ u w'.
          IsStopped tid
            (mark_pickup_timed_out_window_closed (env.clock w.tick) t)
            MachineState.recovery_pending
            w')
        w
unfolding timeout_closed
timeout_closed_lem env tid w {t} h =
    search (wp_rules, closing_to_recovery, lookup-inserted, block-no_sales, block-no_vending) depth
      60

waiting_to_closing :
    (s : MachineState)
    → same_state s MachineState.waiting_for_customer_pickup ≡ true
    → is_allowed s MachineState.closing_delivery_window ≡ true
unfolding same_state is_allowed
waiting_to_closing s h = ground arith

-- What becomes of the transaction when the window is told to close at tick `n`.
abbrev pub timed_out : Env → ℕ → Transaction → Transaction
timed_out env n t =
    if env.close_ok n
    then mark_pickup_timed_out_window_closed (env.clock (suc n)) t
    else mark_faulted (env.clock (suc n)) t

abbrev pub timed_out_state : Env → ℕ → MachineState
timed_out_state env n = if env.close_ok n then MachineState.recovery_pending else MachineState.fault

-- Nothing but the state machine and the status changes before the intent.
start_closing_lem :
    {Q : Unit {0} → World → Type 0} {E : Error → World → Type 0} (w : World)
    → ((f : Engine) (s : MachineStatus) → Q tt (record w { fsm = f; status = s }))
    → Wp start_closing Q E w
unfolding start_closing
start_closing_lem w h = Wp-bind _ _ _ (
    Wp-gets _ _ (
      Wp-when _ _ _
        (λ c.
          Wp-bind _ _ _ (Wp-move_to _ _ (waiting_to_closing _ c) λ f e. Wp-sync_state _ (h f _)))
        (λ c. h w.fsm w.status)))

-- What follows the window's answer decides.
ask_to_close_lem :
    (env : Env) (tid : ℕ) (forced : Bool) (w : World) {Q : Unit {0} → World → Type 0}
    {E : Error → World → Type 0}
    → ((f : Engine) (s : MachineStatus) (j : List JournalEntry) (tr : List Effect)
        → Wp
            (on_reply
              (timeout_closed env tid)
              (timeout_close_failed env tid)
              (if env.close_ok w.tick then ok tt else err device_error))
            Q
            E
            (record w { fsm = f; status = s; journal = j; trace = tr; tick = suc w.tick }))
    → Wp (close_timed_out env tid forced) Q E w
unfolding close_timed_out
ask_to_close_lem env tid forced w h = Wp-bind _ _ _ (
    Wp-publish _ _ (
      Wp-bind _ _ _ (
        start_closing_lem _ λ f s.
          Wp-bind _ _ _
            (Wp-record_intent _ _ _ _ (Wp-bind _ _ _ (Wp-reply_of-call _ _ _ (h f s _ _)))))))

close_timed_out_lem :
    (env : Env) (tid : ℕ) (forced : Bool) (w : World) {t : Transaction}
    → lookup tid w.transactions ≡ some t
    → Returns
        (close_timed_out env tid forced)
        (λ u w'. IsStopped tid (timed_out env w.tick t) (timed_out_state env w.tick) w')
        w
close_timed_out_lem env tid forced w {t} h = ask_to_close_lem env tid forced w λ f s j tr.
    elim (Bool-cases (env.close_ok w.tick)) [
      | inl e ↦ rw e (timeout_closed_lem env tid _ h)
      | inr e ↦ rw e (timeout_close_failed_lem env tid _ h)
    ]

drop_id-none : (a : ℕ) (xs : List ℕ) → contains a (drop_id a xs) ≡ false
unfolding drop_id
drop_id-none a [] = refl
drop_id-none a (x ∷ xs) = ground (arith, drop_id-none a xs)

-- `if transaction.status is not WAITING_FOR_CUSTOMER_PICKUP: return`
still_waiting :
    {Q : Unit {0} → World → Type 0} {E : Error → World → Type 0} (tid : ℕ) (m : Action (Unit {0}))
    (w : World)
    → waits (lookup tid w.transactions) ≡ true
    → Wp m Q E w
    → Wp (λ w. when (waits (lookup tid w.transactions)) m w) Q E w
unfolding when
still_waiting tid m w e h = record { post = rw e h.post }

repack :
    {tid : ℕ} {t : Transaction} {s : MachineState} {w : World}
    → IsStopped tid t s w
    → IsStopped tid t s (stop_handling tid w)
unfolding stop_handling
repack h = record {
  stored = h.stored;
  state = h.state;
  published = h.published;
  no_sales = h.no_sales;
  no_vending = h.no_vending;
}

abbrev if_waiting : Env → ℕ → Bool → Action (Unit {0})
if_waiting env tid forced w =
    when (waits (lookup tid w.transactions)) (close_timed_out env tid forced) w

-- The time-out of a pick-up that the transaction still waits for never raises. The window is
-- told to close; if it does, the transaction has timed out and is up for manual review and the
-- machine is in RECOVERY_PENDING, else the transaction is faulted and the machine in FAULT. In
-- both cases nothing is sold any more, and the time-out is no longer being handled.
pub handle_timeout_lem :
    (env : Env) (tid : ℕ) (forced : Bool) (w : World) {t : Transaction}
    → lookup tid w.transactions ≡ some t
    → is_waiting_for_pickup t.status ≡ true
    → Returns
        (handle_timeout env tid forced)
        (λ u w'.
          IsStopped tid (timed_out env w.tick t) (timed_out_state env w.tick) w'
          × (contains tid w'.handling ≡ false))
        w
unfolding handle_timeout stop_handling
handle_timeout_lem env tid forced w {t} h waiting =
    Wp-finally (if_waiting env tid forced) (stop_handling tid) w (
      still_waiting tid _ w (rw h waiting) (
        Wp-map (λ u w' stopped. (repack stopped, drop_id-none tid w'.handling))
          (close_timed_out_lem env tid forced w h)))
