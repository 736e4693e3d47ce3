-- ===== src/App/Wp/Calls.antt =====
-- Weakest preconditions of the device calls, the tests and the look-ups.
use flower_vending_system.Prelude.{
  ℕ, suc, Bool, true, false, Option, some, ◌∷◌, ◌≡◌, refl, inl, inr, if◌then◌else◌, Option-cases,
}
use flower_vending_system.Prelude.Dict.{lookup}
use flower_vending_system.Prelude.Result.{Error, Result, ok, err, device_error}
use flower_vending_system.Domain.Transaction.{Transaction}
use flower_vending_system.App.World.{
  Presence, call_presence, raise_if, World, Env, Action, DeviceCall, Event, called, published,
  ◌>>=◌, modify, when, if_else, now, publish, call, require,
}
use flower_vending_system.App.Bus.{publish_to, settle, settle_from}
use flower_vending_system.App.Pickup.{reply_of, finally}
use flower_vending_system.App.Wp.{
  Post, Wp, Wp-pure, Wp-raise, Wp-gets, Wp-lift_ok, Wp-lift_err, Wp-lift, Wp-bind, Wp-try_except,
  Wp-map,
}
use flower_vending_system.App.Wp.Writes.{
  Wp-modify, Wp-publish, Wp-modify_transaction, Wp-try_transaction, Wp-try_transaction_err,
  Wp-move_to, Wp-move_or_force, Wp-sync_state, Wp-modify_status, Wp-block_sales, Wp-unblock_sales,
  Wp-record_intent, Wp-record_outcome, Wp-clear_active,
}

module _ {Q : Unit {0} → World → Type 0} {E : Error → World → Type 0} where
  pub Wp-call_ok :
      (reply : ℕ → Bool) (c : DeviceCall) (w : World)
      → reply w.tick ≡ true
      → Q tt (record w { trace = called c ∷ w.trace; tick = suc w.tick })
      → Wp (call reply c) Q E w
  unfolding call
  Wp-call_ok reply c w e h = record { post = rw e h }

  pub Wp-call_err :
      (reply : ℕ → Bool) (c : DeviceCall) (w : World)
      → reply w.tick ≡ false
      → E device_error (record w { trace = called c ∷ w.trace; tick = suc w.tick })
      → Wp (call reply c) Q E w
  unfolding call
  Wp-call_err reply c w e h = record { post = rw e h }

  pub Wp-call :
      (reply : ℕ → Bool) (c : DeviceCall) (w : World)
      → (reply w.tick ≡ true → Q tt (record w { trace = called c ∷ w.trace; tick = suc w.tick }))
      → (reply w.tick ≡ false
          → E device_error (record w { trace = called c ∷ w.trace; tick = suc w.tick }))
      → Wp (call reply c) Q E w
  unfolding call
  Wp-call reply c w h k = record { post = replied (reply w.tick) h k }
    where
      w' : World
      w' = record w { trace = called c ∷ w.trace; tick = suc w.tick }

      replied :
          (b : Bool)
          → (b ≡ true → Q tt w')
          → (b ≡ false → E device_error w')
          → Post Q E (if b then ok tt else err device_error, w')
      replied true h k = h refl
      replied false h k = k refl

  pub Wp-when :
      (c : Bool) (m : Action (Unit {0})) (w : World)
      → (c ≡ true → Wp m Q E w)
      → (c ≡ false → Q tt w)
      → Wp (when c m) Q E w
  unfolding when
  Wp-when true m w h k = record { post = (h refl).post }
  Wp-when false m w h k = record { post = k refl }

  pub Wp-raise_if :
      (c : Bool) (e : Error) (w : World)
      → (c ≡ false → Q tt w)
      → (c ≡ true → E e w)
      → Wp (raise_if c e) Q E w
  unfolding raise_if
  Wp-raise_if true e w h k = record { post = k refl }
  Wp-raise_if false e w h k = record { post = h refl }

  pub Wp-when_yes :
      (c : Bool) (m : Action (Unit {0})) (w : World) → c ≡ true → Wp m Q E w → Wp (when c m) Q E w
  unfolding when
  Wp-when_yes c m w e h = record { post = rw e h.post }

  pub Wp-when_no :
      (c : Bool) (m : Action (Unit {0})) (w : World) → c ≡ false → Q tt w → Wp (when c m) Q E w
  unfolding when
  Wp-when_no c m w e h = record { post = rw e h }

  pub Wp-if_else_no :
      (c : Bool) (m n : Action (Unit {0})) (w : World)
      → c ≡ false
      → Wp n Q E w
      → Wp (if_else c m n) Q E w
  unfolding if_else
  Wp-if_else_no c m n w e h = record { post = rw e h.post }

  pub Wp-if_else :
      (c : Bool) (m n : Action (Unit {0})) (w : World)
      → (c ≡ true → Wp m Q E w)
      → (c ≡ false → Wp n Q E w)
      → Wp (if_else c m n) Q E w
  unfolding if_else
  Wp-if_else true m n w h k = record { post = (h refl).post }
  Wp-if_else false m n w h k = record { post = (k refl).post }

module _ {E : Error → World → Type 0} where
  -- A best-effort handler that only writes does not show in the result of `publish`.
  pub Wp-publish_to :
      {Q : Unit {0} → World → Type 0} (f : World → World) (e : Event) (w : World)
      → Q tt (f (record w { trace = published e ∷ w.trace }))
      → Wp (publish_to false (modify f) e) Q E w
  unfolding publish_to ◌>>=◌ publish modify settle settle_from
  Wp-publish_to f e w h = record { post = h }

  pub Wp-reply_of-call :
      {Q : Result (Unit {0}) → World → Type 0} (reply : ℕ → Bool) (c : DeviceCall) (w : World)
      → Q
          (if reply w.tick then ok tt else err device_error)
          (record w { trace = called c ∷ w.trace; tick = suc w.tick })
      → Wp (reply_of (call reply c)) Q E w
  unfolding call
  Wp-reply_of-call reply c w h = record { post = h }

  pub Wp-finally :
      {Q : Unit {0} → World → Type 0} (m : Action (Unit {0})) (f : World → World) (w : World)
      → Wp m (λ u w'. Q u (f w')) (λ e w'. E e (f w')) w
      → Wp (finally m f) Q E w
  Wp-finally {Q} m f w h = record { post = after (m w) h.post }
    where
      after :
          (o : Result (Unit {0}) × World)
          → Post (λ u w'. Q u (f w')) (λ e w'. E e (f w')) o
          → Post Q E (o.0, f o.1)
      after (ok u, w') k = k
      after (err e, w') k = k

pub Wp-now :
    {Q : ℕ → World → Type 0} {E : Error → World → Type 0} (env : Env) (w : World)
    → Q (env.clock w.tick) (record w { tick = suc w.tick })
    → Wp (now env) Q E w
unfolding now
Wp-now env w h = record { post = h }

pub Wp-call_presence :
    {Q : Presence → World → Type 0} {E : Error → World → Type 0} (reply : ℕ → Option Presence)
    (slot : ℕ) (w : World)
    → ((p : Presence)
        → reply w.tick ≡ some p
        → Q p
            (record w { trace = called (DeviceCall.read_slot slot) ∷ w.trace; tick = suc w.tick }))
    → E device_error
        (record w { trace = called (DeviceCall.read_slot slot) ∷ w.trace; tick = suc w.tick })
    → Wp (call_presence reply slot) Q E w
unfolding call_presence
Wp-call_presence reply slot w h k = elim (Option-cases (reply w.tick)) [
  | inl e ↦ record { post = rw e k }
  | inr (p, e) ↦ record { post = rw e (h p e) }
]

pub Wp-call_presence_ok :
    {Q : Presence → World → Type 0} {E : Error → World → Type 0} (reply : ℕ → Option Presence)
    (slot : ℕ) (w : World) {p : Presence}
    → reply w.tick ≡ some p
    → Q p (record w { trace = called (DeviceCall.read_slot slot) ∷ w.trace; tick = suc w.tick })
    → Wp (call_presence reply slot) Q E w
unfolding call_presence
Wp-call_presence_ok reply slot w e h = record { post = rw e h }

pub Wp-require :
    {Q : Transaction → World → Type 0} {E : Error → World → Type 0} (tid : ℕ) (w : World)
    {t : Transaction}
    → lookup tid w.transactions ≡ some t
    → Q t w
    → Wp (require tid) Q E w
unfolding require
Wp-require tid w e h = record { post = rw e h }

pub ruleset wp_rules = (
  Wp-pure, Wp-raise, Wp-gets, Wp-bind, Wp-try_except, Wp-modify, Wp-publish, Wp-call,
  Wp-modify_transaction, Wp-try_transaction, Wp-move_to, Wp-move_or_force, Wp-sync_state,
  Wp-modify_status, Wp-block_sales, Wp-unblock_sales, Wp-record_intent, Wp-record_outcome, Wp-when,
  Wp-if_else, Wp-now, Wp-require,
)
