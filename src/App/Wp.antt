-- ===== src/App/Wp.antt =====
-- Weakest preconditions of actions, with the rules for sequence and exceptions.
pub mod Calls
pub mod Writes
use flower_vending_system.Prelude.{
  ℕ, suc, Bool, true, false, Option, none, some, ◌∷◌, ◌≡◌, refl, sym, inl, inr, arith,
  if◌then◌else◌, Option-cases,
}
use flower_vending_system.Prelude.Dict.{lookup, insert}
use flower_vending_system.Prelude.Result.{Error, Result, ok, err, device_error}
use flower_vending_system.Domain.Transaction.{Transaction}
use flower_vending_system.Domain.Status.{
  MachineState, MachineStatus, Blocker, set_machine_state, block, unblock,
}
use flower_vending_system.Fsm.Transitions.{is_allowed}
use flower_vending_system.Fsm.Engine.{Engine, force_state}
use flower_vending_system.Fsm.History.{transition_lem, transition_or_force_lem}
use flower_vending_system.App.World.{
  Presence, call_presence, raise_if, World, Env, Action, ActionName, LogicalStep, JournalOutcome,
  DeviceCall, Event, called, published, journaled, pure, raise, lift, gets, try_except, rescue,
  resume, ◌>>=◌, modify, when, if_else, now, publish, call, require, modify_transaction,
  try_transaction,
}
use flower_vending_system.App.Journal.{append_entry, entry_for, record_intent, record_outcome}
use flower_vending_system.App.Bus.{publish_to, settle, settle_from}
use flower_vending_system.App.Pickup.{reply_of, finally}
use flower_vending_system.App.Services.{
  cleared, clear_active, modify_status, sync_state, block_sales, unblock_sales, move_to,
  move_or_force,
}

module _ {A : Type 0} where
  -- What is asked of an outcome: `Q` of a value and the state, `E` of an exception and the state.
  abbrev pub Post : (A → World → Type 0) → (Error → World → Type 0) → Result A × World → Type 0
  Post Q E (ok a, w) = Q a w
  Post Q E (err e, w) = E e w

  -- Running `m` from `w` ends as `Q` and `E` say.
  pub record Wp (m : Action A) (Q : A → World → Type 0) (E : Error → World → Type 0) (w : World)
      : Type 0 where
    pub post : Post Q E (m w)

-- `m` returns from `w`, with a value and a state of which `Q` holds.
abbrev pub Returns : {A : Type 0} → Action A → (A → World → Type 0) → World → Type 0
Returns m Q w = Wp m Q (λ e w'. ⊥) w

-- `m` raises from `w`, with an exception and a state of which `E` holds.
abbrev pub Raises : {A : Type 0} → Action A → (Error → World → Type 0) → World → Type 0
Raises m E w = Wp m (λ a w'. ⊥) E w

module _ {A : Type 0} {Q : A → World → Type 0} {E : Error → World → Type 0} where
  pub Wp-pure : (a : A) (w : World) → Q a w → Wp (pure a) Q E w
  unfolding pure
  Wp-pure a w h = record { post = h }

  pub Wp-raise : (e : Error) (w : World) → E e w → Wp (raise e) Q E w
  unfolding raise
  Wp-raise e w h = record { post = h }

  pub Wp-gets : (f : World → A) (w : World) → Q (f w) w → Wp (gets f) Q E w
  unfolding gets
  Wp-gets f w h = record { post = h }

  pub Wp-lift_ok : (r : Result A) (w : World) {a : A} → r ≡ ok a → Q a w → Wp (lift r) Q E w
  unfolding lift
  Wp-lift_ok r w e h = record { post = rw e h }

  pub Wp-lift_err : (r : Result A) (w : World) {x : Error} → r ≡ err x → E x w → Wp (lift r) Q E w
  unfolding lift
  Wp-lift_err r w e h = record { post = rw e h }

  pub Wp-lift :
      (r : Result A) (w : World)
      → ((a : A) → r ≡ ok a → Q a w)
      → ((e : Error) → E e w)
      → Wp (lift r) Q E w
  unfolding lift
  Wp-lift (ok a) w h k = record { post = h a refl }
  Wp-lift (err e) w h k = record { post = k e }

  pub Wp-bind :
      {B : Type 0} (m : Action B) (f : B → Action A) (w : World)
      → Wp m (λ b. Wp (f b) Q E) E w
      → Wp (m >>= f) Q E w
  unfolding ◌>>=◌
  Wp-bind {B} m f w h = record { post = after (m w) h.post }
    where
      after : (o : Result B × World) → Post (λ b. Wp (f b) Q E) E o → Post Q E (resume o.0 f o.1)
      after (ok b, w') k = k.post
      after (err e, w') k = k

  pub Wp-try_except :
      (m : Action A) (handle : Error → Action A) (w : World)
      → Wp m Q (λ e. Wp (handle e) Q E) w
      → Wp (try_except m handle) Q E w
  unfolding try_except
  Wp-try_except m handle w h = record { post = after (m w) h.post }
    where
      after :
          (o : Result A × World)
          → Post Q (λ e. Wp (handle e) Q E) o
          → Post Q E (rescue o.0 handle o.1)
      after (ok a, w') k = k
      after (err e, w') k = k.post

module _ {A : Type 0} {Q R : A → World → Type 0} {E : Error → World → Type 0} where
  pub Wp-map :
      {m : Action A} {w : World}
      → ((a : A) (w' : World) → R a w' → Q a w')
      → Wp m R E w
      → Wp m Q E w
  Wp-map {m} {w} f h = record { post = after (m w) h.post }
    where
      after : (o : Result A × World) → Post R E o → Post Q E o
      after (ok a, w') k = f a w' k
      after (err e, w') k = k
