-- ===== src/App/Machine/Invariant.antt =====
-- A stable invariant holds in every state that commands lead to.
use flower_vending_system.Prelude.{ℕ, Option, List, [], ◌∷◌}
use flower_vending_system.Prelude.Int.{ℤ}
use flower_vending_system.Domain.Transaction.{Transaction}
use flower_vending_system.Domain.Status.{MachineState}
use flower_vending_system.App.World.{World, Env, Action}
use flower_vending_system.App.Services.{restore_transactions}
use flower_vending_system.App.Registry.{by_id-IsKeyed}
use flower_vending_system.App.Service.{Readings}
use flower_vending_system.App.Startup.{
  force_to, resume_first, restore_runtime_state, complete_startup_flow,
}
use flower_vending_system.App.Keeps.{Keeps, keeps_rules}
use flower_vending_system.App.Keeps.Stable.{Stable, writes, Keeps-modify}
use flower_vending_system.App.Keeps.Sale.{Keeps-process_validator_event}
use flower_vending_system.App.Keeps.Commands.{
  Keeps-start_purchase, Keeps-accept_cash, Keeps-cancel_purchase, Keeps-handle_confirm_pickup,
  Keeps-enter_service_mode, Keeps-exit_service_mode, Keeps-poll_health,
}
use flower_vending_system.App.Keeps.Recovery.{
  Keeps-recover_transaction, Keeps-detect_unresolved_intents,
}
use flower_vending_system.App.Keeps.Timeout.{Keeps-poll_once, Keeps-force_timeout_now}
use flower_vending_system.App.Machine.{Command, Settings, discard, dispatch, step, run}

module _ {P : World → Type 0} (st : Stable P) where
  Keeps-force_to : (s : MachineState) → Keeps P (force_to s)
  unfolding force_to
  Keeps-force_to s = Keeps-modify _ (λ w h. st.on_fsm w s h)

  Keeps-resume_first : (ts : List Transaction) → Keeps P (resume_first ts)
  unfolding resume_first
  Keeps-resume_first [] = search keeps_rules
  Keeps-resume_first (t ∷ ts) = search (keeps_rules, writes, Keeps-force_to) depth 14

  Keeps-restore_transactions :
      (ts : List Transaction) (o : Option ℕ) → Keeps P (restore_transactions ts o)
  unfolding restore_transactions
  Keeps-restore_transactions ts o =
      Keeps-modify _
        (λ w h. st.on_active _ _ (st.on_transactions w _ (λ k. by_id-IsKeyed ts [] tt) h))

  Keeps-restore_runtime_state :
      (env : Env) (listed : List Transaction) (stored : ℕ → Option Transaction)
      → Keeps P (restore_runtime_state env listed stored)
  unfolding restore_runtime_state
  Keeps-restore_runtime_state env listed stored =
      search
        (
          keeps_rules, Keeps-restore_transactions, Keeps-detect_unresolved_intents,
          Keeps-resume_first,
        )
        depth 14

  Keeps-complete_startup_flow :
      (critical : ℤ) (r : Readings) → Keeps P (complete_startup_flow critical r)
  unfolding complete_startup_flow
  Keeps-complete_startup_flow critical r =
      search (keeps_rules, writes, Keeps-force_to, Keeps-poll_health) depth 14

  Keeps-discard : {A : Type 0} (m : Action A) → Keeps P m → Keeps P (discard m)
  unfolding discard
  Keeps-discard m k = search keeps_rules

  pub Keeps-dispatch : (s : Settings) (c : Command) → Keeps P (dispatch s c)
  unfolding dispatch
  Keeps-dispatch s (Command.start_purchase cid pid slot price currency) =
      Keeps-discard _ (Keeps-start_purchase st s.env cid pid slot price currency)
  Keeps-dispatch s (Command.accept_cash tid) = Keeps-discard _ (Keeps-accept_cash st s.env tid)
  Keeps-dispatch s (Command.cancel_purchase tid) =
      Keeps-discard _ (Keeps-cancel_purchase st s.env tid)
  Keeps-dispatch s (Command.confirm_pickup tid) =
      Keeps-discard _ (Keeps-handle_confirm_pickup st s.env tid)
  Keeps-dispatch s (Command.recover_transaction tid) =
      Keeps-discard _ (Keeps-recover_transaction st s.env tid)
  Keeps-dispatch s Command.enter_service_mode = Keeps-discard _ (Keeps-enter_service_mode st)
  Keeps-dispatch s Command.exit_service_mode = Keeps-discard _ (Keeps-exit_service_mode st)
  Keeps-dispatch s (Command.validator_event type bill) =
      Keeps-process_validator_event st s.env s.pickup_timeout type bill
  Keeps-dispatch s (Command.poll_health r) = Keeps-poll_health st s.critical r
  Keeps-dispatch s Command.poll_pickup = Keeps-poll_once st s.env s.pickup_timeout
  Keeps-dispatch s Command.force_pickup_timeout = Keeps-discard _ (Keeps-force_timeout_now st s.env)
  Keeps-dispatch s (Command.restore listed stored) = Keeps-restore_runtime_state s.env listed stored
  Keeps-dispatch s (Command.complete_startup r) = Keeps-complete_startup_flow s.critical r

  pub run-keeps : (s : Settings) (cs : List Command) (w : World) → P w → P (run s cs w)
  unfolding run step
  run-keeps s [] w h = h
  run-keeps s (c ∷ cs) w h = run-keeps s cs (step s c w) ((Keeps-dispatch s c).at w h)
