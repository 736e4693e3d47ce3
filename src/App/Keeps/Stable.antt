-- ===== src/App/Keeps/Stable.antt =====
-- An invariant that each single write of the orchestrators keeps is kept by every action of
-- App/Services, App/Journal and App/Change.
use flower_vending_system.Prelude.{
  ℕ, suc, Bool, true, Option, some, List, ◌∷◌, ◌≡◌, refl, inl, inr, Option-cases,
}
use flower_vending_system.Prelude.Dict.{Dict, lookup}
use flower_vending_system.Prelude.Result.{Result, ok, err}
use flower_vending_system.Domain.Reserve.{Plan}
use flower_vending_system.Domain.Transaction.{Transaction}
use flower_vending_system.Domain.Slot.{Slot}
use flower_vending_system.Domain.Status.{
  MachineState, Blocker, MachineStatus, refresh_permissions, set_machine_state, block, unblock,
  set_active_transaction, set_service_mode, set_exact_change_only,
}
use flower_vending_system.Fsm.Engine.{force_state}
use flower_vending_system.Fsm.History.{transition_lem, transition_or_force_lem}
use flower_vending_system.Money.Inventory.{MoneyInventory}
use flower_vending_system.App.World.{
  World, Env, ActionName, LogicalStep, JournalOutcome, JournalEntry, DeviceCall, Event, PayoutReply,
  Presence, journaled, called, published, modify, now, publish, call, call_payout, call_presence,
  require, modify_transaction, try_transaction, store, lift, ◌>>=◌,
}
use flower_vending_system.App.Registry.{
  IsKeyed, SameId, SameIdOr, store-IsKeyed, authorize_vend-SameIdOr, confirm_payment-SameIdOr,
  record_stacked_cash-SameIdOr,
}
use flower_vending_system.App.Journal.{append_entry, record_intent, record_outcome}
use flower_vending_system.App.Guard.{is_open, is_guarded}
use flower_vending_system.App.Services.{
  modify_status, sync_state, block_sales, unblock_sales, ensure_sales_allowed, move_to,
  move_or_force, clear_active,
}
use flower_vending_system.App.Change.{reserve_money, modify_money, find_plan}
use flower_vending_system.App.Keeps.{Leads, Keeps, keeps_rules}

pub record Stable (P : World → Type 0) : Type 0 where
  pub on_tick : (w : World) → P w → P (record w { tick = suc w.tick })
  pub on_publish : (w : World) (e : Event) → P w → P (record w { trace = published e ∷ w.trace })
  pub on_entry :
      (w : World) (e : JournalEntry)
      → P w
      → P (record w { journal = append_entry e w.journal; trace = journaled e ∷ w.trace })
  pub on_call :
      (w : World) (c : DeviceCall)
      → is_guarded c w.trace ≡ true
      → P w
      → P (record w { trace = called c ∷ w.trace; tick = suc w.tick })
  pub on_transactions :
      (w : World) (ts : Dict Transaction)
      → (IsKeyed w.transactions → IsKeyed ts)
      → P w
      → P (record w { transactions = ts })
  pub on_active : (w : World) (o : Option ℕ) → P w → P (record w { active_id = o })
  pub on_money : (w : World) (m : MoneyInventory) → P w → P (record w { money = m })
  pub on_slots : (w : World) (s : Dict Slot) → P w → P (record w { slots = s })
  pub on_deadlines : (w : World) (d : Dict ℕ) → P w → P (record w { deadlines = d })
  pub on_handling : (w : World) (h : List ℕ) → P w → P (record w { handling = h })
  pub on_status :
      (w : World) (s : MachineStatus) → P w → P (record w { status = refresh_permissions s })
  pub on_fsm : (w : World) (s : MachineState) → P w → P (record w { fsm = force_state s w.fsm })

-- `P`, and the intent for the call `c` is open.
abbrev pub Open : DeviceCall → (World → Type 0) → World → Type 0
Open c P w = P w × (is_open c w.trace ≡ true)

module _ {P : World → Type 0} where
  pub Keeps-modify : (f : World → World) → ((w : World) → P w → P (f w)) → Keeps P (modify f)
  unfolding modify
  Keeps-modify f k = record { at = k }

  pub Keeps-require : (tid : ℕ) → Keeps P (require tid)
  unfolding require
  Keeps-require tid = search keeps_rules

  pub Keeps-find_plan : (target : ℕ) → Keeps P (find_plan target)
  unfolding find_plan
  Keeps-find_plan target = search keeps_rules

  pub Keeps-reserve_money_of :
      ((w : World) (m : MoneyInventory) → P w → P (record w { money = m }))
      → (tid : ℕ) (p : Plan) → Keeps P (reserve_money tid p)
  unfolding reserve_money
  Keeps-reserve_money_of on_money tid p = search (keeps_rules, set_money)
    where
      set_money : (m : MoneyInventory) → Keeps P (modify (λ w. record w { money = m }))
      set_money m = Keeps-modify _ (λ w h. on_money w m h)

module _ {P : World → Type 0} (st : Stable P) where
  pub Keeps-now : (env : Env) → Keeps P (now env)
  unfolding now
  Keeps-now env = record { at = st.on_tick }

  pub Keeps-publish : (e : Event) → Keeps P (publish e)
  unfolding publish
  Keeps-publish e = record { at = λ w h. st.on_publish w e h }

  pub Keeps-modify_transaction :
      (tid : ℕ) (f : Transaction → Transaction) → SameId f → Keeps P (modify_transaction tid f)
  unfolding modify_transaction require ◌>>=◌
  Keeps-modify_transaction tid f same = record {
    at = λ w h. elim (Option-cases (lookup tid w.transactions)) [
      | inl e ↦ rw e h
      | inr (t, e) ↦
          rw e (st.on_transactions w _ (store-IsKeyed tid t (f t) w.transactions e (same t)) h)
    ];
  }

  pub Keeps-try_transaction :
      (tid : ℕ) (f : Transaction → Result Transaction)
      → SameIdOr f
      → Keeps P (try_transaction tid f)
  unfolding try_transaction require ◌>>=◌
  Keeps-try_transaction tid f same = record {
    at = λ w h. elim (Option-cases (lookup tid w.transactions)) [
      | inl e ↦ rw e h
      | inr (t, e) ↦ rw e (tried w t e (f t) refl h)
    ];
  }
    where
      tried :
          (w : World) (t : Transaction)
          → lookup tid w.transactions ≡ some t
          → (r : Result Transaction) → f t ≡ r
          → P w
          → P ((lift r >>= λ t'. store tid t') w).1
      tried w t e (err x) k h = h
      tried w t e (ok t') k h =
          st.on_transactions w _ (store-IsKeyed tid t t' w.transactions e (same t t' k)) h

  pub Keeps-move_to : (s : MachineState) → Keeps P (move_to s)
  unfolding move_to
  Keeps-move_to s = record {
    at = λ w h. elim (transition_lem s w.fsm) [
      | inl (e, same) ↦ rw same h
      | inr (inl (e, moved)) ↦ rw moved (st.on_fsm w s h)
      | inr (inr (e, refused)) ↦ rw refused h
    ];
  }

  pub Keeps-move_or_force : (s : MachineState) → Keeps P (move_or_force s)
  unfolding move_or_force
  Keeps-move_or_force s = record {
    at = λ w h. elim (transition_or_force_lem s w.fsm) [
      | inl (same, e) ↦ rw same h
      | inr moved ↦ rw moved (st.on_fsm w s h)
    ];
  }

  pub Keeps-sync_state : Keeps P sync_state
  unfolding sync_state
  Keeps-sync_state = record {
    at = λ w h. st.on_status w (set_machine_state w.fsm.state w.status) h;
  }

  pub Keeps-set_active_transaction :
      (o : Option ℕ) → Keeps P (modify_status (set_active_transaction o))
  unfolding modify_status
  Keeps-set_active_transaction o = record {
    at = λ w h. st.on_status w (set_active_transaction o w.status) h;
  }

  pub Keeps-set_service_mode : (b : Bool) → Keeps P (modify_status (set_service_mode b))
  unfolding modify_status
  Keeps-set_service_mode b = record { at = λ w h. st.on_status w (set_service_mode b w.status) h }

  pub Keeps-set_exact_change_only : (b : Bool) → Keeps P (modify_status (set_exact_change_only b))
  unfolding modify_status
  Keeps-set_exact_change_only b = record {
    at = λ w h. st.on_status w (set_exact_change_only b w.status) h;
  }

  pub Keeps-block_sales : (b : Blocker) → Keeps P (block_sales b)
  unfolding block_sales
  Keeps-block_sales b = record { at = λ w h. st.on_status w (block b w.status) h }

  pub Keeps-unblock_sales : (b : Blocker) → Keeps P (unblock_sales b)
  unfolding unblock_sales
  Keeps-unblock_sales b = record { at = λ w h. st.on_status w (unblock b w.status) h }

  pub Keeps-ensure_sales_allowed : Keeps P ensure_sales_allowed
  unfolding ensure_sales_allowed
  Keeps-ensure_sales_allowed = record { at = λ w h. h }

  pub Keeps-clear_active : (tid : ℕ) → Keeps P (clear_active tid)
  unfolding clear_active
  Keeps-clear_active tid = Keeps-modify _ (λ w h. st.on_active w _ h)

  pub Keeps-record_intent :
      (tid : ℕ) (a : ActionName) (s : LogicalStep) → Keeps P (record_intent tid a s)
  unfolding record_intent
  Keeps-record_intent tid a s = Keeps-modify _ (λ w h. st.on_entry w _ h)

  pub Keeps-record_outcome :
      (tid : ℕ) (a : ActionName) (s : LogicalStep) (o : JournalOutcome)
      → Keeps P (record_outcome tid a s o)
  unfolding record_outcome
  Keeps-record_outcome tid a s o = Keeps-modify _ (λ w h. st.on_entry w _ h)

  pub Keeps-reserve_money : (tid : ℕ) (p : Plan) → Keeps P (reserve_money tid p)
  Keeps-reserve_money tid p = Keeps-reserve_money_of st.on_money tid p

  pub Keeps-modify_money : (f : MoneyInventory → MoneyInventory) → Keeps P (modify_money f)
  unfolding modify_money
  Keeps-modify_money f = Keeps-modify _ (λ w h. st.on_money w _ h)

  -- Only a sensor may be read with no intent.
  pub Keeps-call_presence : (r : ℕ → Option Presence) (slot : ℕ) → Keeps P (call_presence r slot)
  unfolding call_presence
  Keeps-call_presence r slot = record {
    at = λ w h. st.on_call w (DeviceCall.read_slot slot) refl h;
  }

  pub Leads-call :
      (r : ℕ → Bool) (c : DeviceCall)
      → Leads (λ w. P w × (is_guarded c w.trace ≡ true)) P (call r c)
  unfolding call
  Leads-call r c = record { at = λ w h. st.on_call w c h.1 h.0 }

  pub Leads-call_payout :
      (r : ℕ → PayoutReply) (p : Plan)
      → Leads (λ w. P w × (is_guarded (DeviceCall.dispense p) w.trace ≡ true)) P (call_payout r p)
  unfolding call_payout
  Leads-call_payout r p = record { at = λ w h. st.on_call w (DeviceCall.dispense p) h.1 h.0 }

pub ruleset writes = (
  Keeps-require, Keeps-now, Keeps-publish, Keeps-modify_transaction, Keeps-try_transaction,
  Keeps-move_to, Keeps-move_or_force, Keeps-sync_state, Keeps-set_active_transaction,
  Keeps-set_service_mode, Keeps-set_exact_change_only, Keeps-block_sales, Keeps-unblock_sales,
  Keeps-ensure_sales_allowed, Keeps-clear_active, Keeps-record_intent, Keeps-record_outcome,
  Keeps-find_plan, Keeps-reserve_money, Keeps-modify_money, Keeps-call_presence,
  authorize_vend-SameIdOr, confirm_payment-SameIdOr, record_stacked_cash-SameIdOr,
)
