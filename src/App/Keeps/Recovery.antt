-- ===== src/App/Keeps/Recovery.antt =====
-- The recovery manager keeps a stable invariant: app/orchestrators/recovery_manager.py.
use flower_vending_system.Prelude.{ℕ, Option, none, some, List, [], ◌∷◌}
use flower_vending_system.Domain.Transaction.{Transaction}
use flower_vending_system.App.World.{World, Env, Action, JournalEntry}
use flower_vending_system.App.Recovery.{
  RecoveryPlan, mark_intent, mark_unresolved_intent, mark_if_known, report, announce, detect_from,
  enter_recovery, detect_unresolved_intents, cancel_safely, recover_transaction,
}
use flower_vending_system.App.Keeps.{Keeps, keeps_rules, Keeps-bind}
use flower_vending_system.App.Keeps.Stable.{Stable, writes}

module _ {P : World → Type 0} (st : Stable P) where
  Keeps-mark_intent : (env : Env) (i : JournalEntry) → Keeps P (mark_intent env i)
  unfolding mark_intent
  Keeps-mark_intent env i = search (keeps_rules, writes)

  Keeps-announce : (i : JournalEntry) (p : RecoveryPlan) → Keeps P (announce i p)
  unfolding announce
  Keeps-announce i p = search (keeps_rules, writes)

  Keeps-mark_if_known :
      (env : Env) (i : JournalEntry) (t : Option Transaction) → Keeps P (mark_if_known env i t)
  unfolding mark_if_known
  Keeps-mark_if_known env i none = search keeps_rules
  Keeps-mark_if_known env i (some t) = search (keeps_rules, Keeps-mark_intent)

  Keeps-mark_unresolved_intent :
      (env : Env) (i : JournalEntry) → Keeps P (mark_unresolved_intent env i)
  unfolding mark_unresolved_intent
  Keeps-mark_unresolved_intent env i = search (keeps_rules, Keeps-mark_if_known)

  Keeps-report :
      (i : JournalEntry) (p : Option RecoveryPlan) (rest : Action (List RecoveryPlan))
      → Keeps P rest
      → Keeps P (report i p rest)
  unfolding report
  Keeps-report i none rest k = k
  Keeps-report i (some p) rest k = search (keeps_rules, Keeps-announce)

  Keeps-detect_from : (env : Env) (is : List JournalEntry) → Keeps P (detect_from env is)
  unfolding detect_from
  Keeps-detect_from env [] = search keeps_rules
  Keeps-detect_from env (i ∷ is) =
      Keeps-bind _ _ (Keeps-mark_unresolved_intent env i)
        (λ p. Keeps-report i p _ (Keeps-detect_from env is))

  Keeps-enter_recovery : Keeps P enter_recovery
  unfolding enter_recovery
  Keeps-enter_recovery = search (keeps_rules, writes)

  pub Keeps-detect_unresolved_intents : (env : Env) → Keeps P (detect_unresolved_intents env)
  unfolding detect_unresolved_intents
  Keeps-detect_unresolved_intents env =
      search (keeps_rules, Keeps-detect_from, Keeps-enter_recovery) depth 12

  Keeps-cancel_safely : (env : Env) (tid : ℕ) → Keeps P (cancel_safely env tid)
  unfolding cancel_safely
  Keeps-cancel_safely env tid = search (keeps_rules, writes) depth 20

  pub Keeps-recover_transaction : (env : Env) (tid : ℕ) → Keeps P (recover_transaction env tid)
  unfolding recover_transaction
  Keeps-recover_transaction env tid =
      search (keeps_rules, writes, Keeps-enter_recovery, Keeps-cancel_safely) depth 18
