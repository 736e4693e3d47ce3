-- ===== src/App/Wp/Writes.antt =====
-- Weakest preconditions of the writes: of transactions, the state machine, the status, the journal.
use flower_vending_system.Prelude.{ℕ, true, none, some, ◌∷◌, ◌≡◌, refl, sym, inl, inr, arith}
use flower_vending_system.Prelude.Dict.{lookup, insert}
use flower_vending_system.Prelude.Result.{Error, Result, ok, err}
use flower_vending_system.Domain.Transaction.{Transaction}
use flower_vending_system.Domain.Status.{
  MachineState, MachineStatus, Blocker, set_machine_state, block, unblock,
}
use flower_vending_system.Fsm.Transitions.{is_allowed}
use flower_vending_system.Fsm.Engine.{Engine, force_state}
use flower_vending_system.Fsm.History.{transition_lem, transition_or_force_lem}
use flower_vending_system.App.World.{
  World, ActionName, LogicalStep, JournalOutcome, Event, published, journaled, ◌>>=◌, modify,
  publish, require, modify_transaction, try_transaction,
}
use flower_vending_system.App.Journal.{append_entry, entry_for, record_intent, record_outcome}
use flower_vending_system.App.Services.{
  cleared, clear_active, modify_status, sync_state, block_sales, unblock_sales, move_to,
  move_or_force,
}
use flower_vending_system.App.Wp.{Wp}

module _ {Q : Unit {0} → World → Type 0} {E : Error → World → Type 0} where
  pub Wp-modify : (f : World → World) (w : World) → Q tt (f w) → Wp (modify f) Q E w
  unfolding modify
  Wp-modify f w h = record { post = h }

  pub Wp-publish :
      (e : Event) (w : World)
      → Q tt (record w { trace = published e ∷ w.trace })
      → Wp (publish e) Q E w
  unfolding publish
  Wp-publish e w h = Wp-modify _ w h

  pub Wp-modify_transaction :
      (tid : ℕ) (f : Transaction → Transaction) (w : World) {t : Transaction}
      → lookup tid w.transactions ≡ some t
      → Q tt (record w { transactions = insert tid (f t) w.transactions })
      → Wp (modify_transaction tid f) Q E w
  unfolding modify_transaction require ◌>>=◌
  Wp-modify_transaction tid f w e h = record { post = rw e h }

  pub Wp-try_transaction :
      (tid : ℕ) (f : Transaction → Result Transaction) (w : World) {t t' : Transaction}
      → lookup tid w.transactions ≡ some t
      → f t ≡ ok t'
      → Q tt (record w { transactions = insert tid t' w.transactions })
      → Wp (try_transaction tid f) Q E w
  unfolding try_transaction require ◌>>=◌
  Wp-try_transaction tid f w e k h = record { post = rw (e, k) h }

  pub Wp-try_transaction_err :
      (tid : ℕ) (f : Transaction → Result Transaction) (w : World) {t : Transaction} {x : Error}
      → lookup tid w.transactions ≡ some t
      → f t ≡ err x
      → E x w
      → Wp (try_transaction tid f) Q E w
  unfolding try_transaction require ◌>>=◌
  Wp-try_transaction_err tid f w e k h = record { post = rw (e, k) h }

  pub Wp-move_to :
      (s : MachineState) (w : World)
      → is_allowed w.fsm.state s ≡ true
      → ((f : Engine) → f.state ≡ s → Q tt (record w { fsm = f }))
      → Wp (move_to s) Q E w
  unfolding move_to force_state
  Wp-move_to s w a h = elim (transition_lem s w.fsm) [
    | inl (e, same) ↦ record { post = rw same (h w.fsm (sym e)) }
    | inr (inl (e, moved)) ↦ record { post = rw moved (h (force_state s w.fsm) refl) }
    | inr (inr (e, refused)) ↦ ground arith
  ]

  pub Wp-move_or_force :
      (s : MachineState) (w : World)
      → ((f : Engine) → f.state ≡ s → Q tt (record w { fsm = f }))
      → Wp (move_or_force s) Q E w
  unfolding move_or_force force_state
  Wp-move_or_force s w h = elim (transition_or_force_lem s w.fsm) [
    | inl (same, e) ↦ record { post = rw same (h w.fsm (sym e)) }
    | inr moved ↦ record { post = rw moved (h (force_state s w.fsm) refl) }
  ]

  pub Wp-sync_state :
      (w : World)
      → Q tt (record w { status = set_machine_state w.fsm.state w.status })
      → Wp sync_state Q E w
  unfolding sync_state modify_status
  Wp-sync_state w h = record { post = h }

  pub Wp-modify_status :
      (f : MachineStatus → MachineStatus) (w : World)
      → Q tt (record w { status = f w.status })
      → Wp (modify_status f) Q E w
  unfolding modify_status
  Wp-modify_status f w h = Wp-modify _ w h

  pub Wp-block_sales :
      (b : Blocker) (w : World)
      → Q tt (record w { status = block b w.status })
      → Wp (block_sales b) Q E w
  unfolding block_sales
  Wp-block_sales b w h = Wp-modify_status _ w h

  pub Wp-unblock_sales :
      (b : Blocker) (w : World)
      → Q tt (record w { status = unblock b w.status })
      → Wp (unblock_sales b) Q E w
  unfolding unblock_sales
  Wp-unblock_sales b w h = Wp-modify_status _ w h

  pub Wp-record_intent :
      (tid : ℕ) (a : ActionName) (s : LogicalStep) (w : World)
      → Q tt (record w {
        journal = append_entry (entry_for tid a s none w) w.journal;
        trace = journaled (entry_for tid a s none w) ∷ w.trace;
      })
      → Wp (record_intent tid a s) Q E w
  unfolding record_intent
  Wp-record_intent tid a s w h = Wp-modify _ w h

  pub Wp-record_outcome :
      (tid : ℕ) (a : ActionName) (s : LogicalStep) (o : JournalOutcome) (w : World)
      → Q tt (record w {
        journal = append_entry (entry_for tid a s (some o) w) w.journal;
        trace = journaled (entry_for tid a s (some o) w) ∷ w.trace;
      })
      → Wp (record_outcome tid a s o) Q E w
  unfolding record_outcome
  Wp-record_outcome tid a s o w h = Wp-modify _ w h

  pub Wp-clear_active :
      (tid : ℕ) (w : World)
      → Q tt (record w { active_id = cleared tid w.active_id })
      → Wp (clear_active tid) Q E w
  unfolding clear_active
  Wp-clear_active tid w h = Wp-modify _ w h
