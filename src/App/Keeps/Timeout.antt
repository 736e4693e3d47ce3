-- ===== src/App/Keeps/Timeout.antt =====
-- The pickup time-out keeps a stable invariant:
-- app/orchestrators/pickup_timeout_coordinator.py.
use flower_vending_system.Prelude.{ℕ, Bool, false, List, [], ◌∷◌, refl}
use flower_vending_system.Prelude.Dict.{Dict, lookup}
use flower_vending_system.Prelude.Result.{Result, ok, err}
use flower_vending_system.App.World.{World, Env, DeviceCall, modify, call}
use flower_vending_system.App.Pickup.{
  timeout_close_failed, timeout_closed, start_closing, on_reply, reply_of, close_timed_out, waits,
  stop_handling, handle_timeout, handle_all, collect_expired, poll_once, force_timeout_now,
}
use flower_vending_system.App.Keeps.{Leads, Keeps, keeps_rules, Leads-bind, Keeps-bind, Keeps-when}
use flower_vending_system.App.Keeps.Stable.{Stable, Open, writes, Keeps-modify}
use flower_vending_system.App.Keeps.Guarded.{Leads-Open-call, Leads-record_intent}

module _ {P : World → Type 0} (st : Stable P) where
  Keeps-collect_expired : (env : Env) (timeout : ℕ) → Keeps P (collect_expired env timeout)
  unfolding collect_expired
  Keeps-collect_expired env timeout = search (keeps_rules, writes, set_deadlines, take) depth 14
    where
      set_deadlines : (f : World → Dict ℕ) → Keeps P (modify (λ w. record w { deadlines = f w }))
      set_deadlines f = Keeps-modify _ (λ w h. st.on_deadlines w _ h)

      take :
          (f : World → Dict ℕ) (g : World → List ℕ)
          → Keeps P (modify (λ w. record w { deadlines = f w; handling = g w }))
      take f g = Keeps-modify _ (λ w h. st.on_handling _ _ (st.on_deadlines w _ h))

  Keeps-timeout_close_failed : (env : Env) (tid : ℕ) → Keeps P (timeout_close_failed env tid)
  unfolding timeout_close_failed
  Keeps-timeout_close_failed env tid = search (keeps_rules, writes) depth 18

  Keeps-timeout_closed : (env : Env) (tid : ℕ) → Keeps P (timeout_closed env tid)
  unfolding timeout_closed
  Keeps-timeout_closed env tid = search (keeps_rules, writes) depth 18

  Keeps-start_closing : Keeps P start_closing
  unfolding start_closing
  Keeps-start_closing = search (keeps_rules, writes) depth 12

  Keeps-on_reply :
      (env : Env) (tid : ℕ) (r : Result (Unit {0}))
      → Keeps P (on_reply (timeout_closed env tid) (timeout_close_failed env tid) r)
  Keeps-on_reply env tid (ok u) = Keeps-timeout_closed env tid
  Keeps-on_reply env tid (err e) = Keeps-timeout_close_failed env tid

  closing :
      (env : Env)
      → Leads
          (Open DeviceCall.close_window P)
          P
          (reply_of (call env.close_ok DeviceCall.close_window))
  closing env = record {
    at = λ w h. (Leads-Open-call st env.close_ok DeviceCall.close_window).at w h;
  }

  Keeps-close_timed_out :
      (env : Env) (tid : ℕ) (forced : Bool) → Keeps P (close_timed_out env tid forced)
  unfolding close_timed_out
  Keeps-close_timed_out env tid forced = Keeps-bind _ _ (search writes) λ u.
      Keeps-bind _ _ Keeps-start_closing λ v.
        Leads-bind _ _ (Leads-record_intent st tid _ _ DeviceCall.close_window refl) (λ w h. h.0)
          λ x. Leads-bind _ _ (closing env) (λ w h. h) (Keeps-on_reply env tid)

  Keeps-handle_timeout :
      (env : Env) (tid : ℕ) (forced : Bool) → Keeps P (handle_timeout env tid forced)
  unfolding handle_timeout stop_handling
  Keeps-handle_timeout env tid forced = record {
    at = λ w h. st.on_deadlines _ _ (
        st.on_handling _ _ (
          (Keeps-when (waits (lookup tid w.transactions)) _
              (Keeps-close_timed_out env tid forced)).at
            w h));
  }

  Keeps-handle_all : (env : Env) (tids : List ℕ) → Keeps P (handle_all env tids)
  unfolding handle_all
  Keeps-handle_all env [] = search keeps_rules
  Keeps-handle_all env (tid ∷ tids) =
      Keeps-bind _ _ (Keeps-handle_timeout env tid false) (λ u. Keeps-handle_all env tids)

  pub Keeps-poll_once : (env : Env) (timeout : ℕ) → Keeps P (poll_once env timeout)
  unfolding poll_once
  Keeps-poll_once env timeout = search (keeps_rules, Keeps-collect_expired, Keeps-handle_all)

  pub Keeps-force_timeout_now : (env : Env) → Keeps P (force_timeout_now env)
  unfolding force_timeout_now
  Keeps-force_timeout_now env = search (keeps_rules, writes, take, Keeps-handle_timeout) depth 14
    where
      take :
          (f : World → Dict ℕ) (g : World → List ℕ)
          → Keeps P (modify (λ w. record w { deadlines = f w; handling = g w }))
      take f g = Keeps-modify _ (λ w h. st.on_handling _ _ (st.on_deadlines w _ h))
