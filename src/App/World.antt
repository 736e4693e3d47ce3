-- ===== src/App/World.antt =====
-- The state that the orchestrators of src/flower_vending/app share, what they do to the world
-- outside, and the actions that their methods are written in.
-- The devices are what the code calls through devices/interfaces: the environment says how each
-- call ends, as a function of a counter that every call and every look at the clock moves on, so
-- it may answer each call differently. Text identifiers are numbers, with 0 for the empty text.
use flower_vending_system.Prelude.{
  ℕ, suc, Bool, true, false, Option, none, some, List, ◌∷◌, if◌then◌else◌,
}
use flower_vending_system.Prelude.Dict.{Dict, lookup, insert}
use flower_vending_system.Prelude.Result.{Error, key_error, device_error, Result, ok, err}
use flower_vending_system.Domain.Reserve.{Plan}
use flower_vending_system.Domain.Statuses.{TransactionStatus}
use flower_vending_system.Domain.Transaction.{Transaction}
use flower_vending_system.Domain.Slot.{Slot, Product}
use flower_vending_system.Domain.Status.{MachineState, MachineStatus}
use flower_vending_system.Fsm.Engine.{Engine}
use flower_vending_system.Money.Inventory.{MoneyInventory}

-- The `action_name`s and `logical_step`s that the orchestrators journal.
pub data ActionName : Type 0 where
  acceptance_enable_requested acceptance_disable_requested : ActionName
  change_dispense_requested refund_dispense_requested : ActionName
  motor_vend_requested window_open_requested window_close_requested : ActionName

pub data LogicalStep : Type 0 where
  start_session_enable complete_payment_disable complete_payment_change : LogicalStep
  cancel_disable cancel_refund : LogicalStep
  vend_motor vend_open_window pickup_close_window timeout_close_window : LogicalStep

pub data JournalOutcome : Type 0 where
  succeeded failed ambiguous : JournalOutcome

-- An entry of the journal; `outcome` is none for an intent.
pub record JournalEntry : Type 0 where
  pub transaction_id : ℕ
  pub action : ActionName
  pub logical_step : LogicalStep
  pub outcome : Option JournalOutcome
  pub machine_state : MachineState
  pub transaction_status : Option TransactionStatus

pub data ValidatorEventType : Type 0 where
  bill_detected bill_validated bill_rejected escrow_available : ValidatorEventType
  bill_stacked bill_returned validator_fault validator_disabled : ValidatorEventType

-- The domain events, with the transaction and the amounts that they carry. Correlation ids and
-- other labels are left out.
pub data Event : Type 0 where
  purchase_started : (tid product slot price : ℕ) → Event
  change_reserve_created : (tid total : ℕ) → Event
  cash_session_started : (tid accepted : ℕ) → Event
  device_event : ValidatorEventType → (tid bill : Option ℕ) → Event
  cash_amount_updated : (tid accepted remaining : ℕ) → Event
  payment_confirmed : (tid accepted change_due : ℕ) → Event
  change_requested change_dispensed : (tid change_due : ℕ) → Event
  vend_authorized : (tid slot : ℕ) → Event
  transaction_cancelled : (tid : ℕ) → Event
  refund_requested refund_failed refund_dispensed : (tid amount : ℕ) → Event
  product_dispense_requested product_dispensed : (tid slot : ℕ) → Event
  delivery_window_opened pickup_confirmed : (tid : ℕ) → Event
  transaction_completed : (tid product slot : ℕ) → Event
  pickup_timeout_elapsed : (tid : ℕ) (forced : Bool) → Event
  pickup_timeout_window_closed pickup_timeout_window_close_failed : (tid : ℕ) → Event
  machine_faulted manual_review_required : (tid : Option ℕ) → Event
  unresolved_intent_detected : (tid : ℕ) → ActionName → Event
  recovery_started recovery_completed : (tid : ℕ) → Event
  service_mode_entered service_mode_exited : Event
  service_door_opened critical_temperature_detected : Event

pub data DeviceCall : Type 0 where
  enable_acceptance disable_acceptance open_window close_window : DeviceCall
  vend_slot : ℕ → DeviceCall
  dispense : Plan → DeviceCall
  read_slot : ℕ → DeviceCall
  read_service_door read_temperature : DeviceCall

-- What the code asks for, newest first in `World.trace`: a record to journal, a call, an event.
pub data Effect : Type 0 where
  journaled : JournalEntry → Effect
  called : DeviceCall → Effect
  published : Event → Effect

pub record World : Type 0 where
  pub fsm : Engine
  pub status : MachineStatus
  pub transactions : Dict Transaction
  pub active_id : Option ℕ
  pub money : MoneyInventory
  pub accepted_bills : List ℕ
  pub products : Dict Product
  pub slots : Dict Slot
  pub deadlines : Dict ℕ
  pub handling : List ℕ
  pub journal : List JournalEntry
  pub trace : List Effect
  pub tick : ℕ

-- `InventoryPresence`; the confidence is in thousandths.
pub record Presence : Type 0 where
  pub has_product : Bool
  pub confidence : ℕ

-- `PayoutStatus` of devices/contracts.py, or an exception.
pub data PayoutReply : Type 0 where
  paid_out paid_partially payout_failed payout_ambiguous payout_raises : PayoutReply

-- How the calls end at each tick: true for a normal return, none for an exception.
pub record Env : Type 0 where
  pub clock : ℕ → ℕ
  pub new_id : ℕ → ℕ
  pub enable_ok : ℕ → Bool
  pub disable_ok : ℕ → Bool
  pub vend_ok : ℕ → Bool
  pub open_ok : ℕ → Bool
  pub close_ok : ℕ → Bool
  pub payout : ℕ → PayoutReply
  pub has_slot_sensor : Bool
  pub presence : ℕ → Option Presence

-- A method call: the state comes back after a raise too, since what was written stays written.
abbrev pub Action : Type 0 → Type 0
Action A = World → Result A × World

module _ {A : Type 0} where
  unfoldable pub pure : A → Action A
  pure a w = (ok a, w)

  unfoldable pub raise : Error → Action A
  raise e w = (err e, w)

  unfoldable pub lift : Result A → Action A
  lift r w = (r, w)

  unfoldable pub gets : (World → A) → Action A
  gets f w = (ok (f w), w)

  abbrev pub rescue : Result A → (Error → Action A) → Action A
  rescue (ok a) handle w = (ok a, w)
  rescue (err e) handle w = handle e w

  -- `try: m except Exception as exc: handle(exc)`
  unfoldable pub try_except : Action A → (Error → Action A) → Action A
  try_except m handle w = let (r, w') = m w in rescue r handle w'

  unfoldable pub or_raise : Option A → Error → Action A
  or_raise none e w = (err e, w)
  or_raise (some a) e w = (ok a, w)

unfoldable pub modify : (World → World) → Action (Unit {0})
modify f w = (ok tt, f w)

unfoldable pub raise_if : Bool → Error → Action (Unit {0})
raise_if c e w = (if c then err e else ok tt, w)

unfoldable pub when : Bool → Action (Unit {0}) → Action (Unit {0})
when true m w = m w
when false m w = (ok tt, w)

unfoldable pub if_else : Bool → Action (Unit {0}) → Action (Unit {0}) → Action (Unit {0})
if_else true m n w = m w
if_else false m n w = n w

-- `datetime.now(...)`
unfoldable pub now : Env → Action ℕ
now env w = (ok (env.clock w.tick), record w { tick = suc w.tick })

abbrev pub resume : {A B : Type 0} → Result A → (A → Action B) → Action B
resume (ok a) f w = f a w
resume (err e) f w = (err e, w)

-- Opening this opens the other ways to build an action too.
infixl 5 ◌>>=◌ ◌>>◌
unfoldable pub ◌>>=◌ : {A B : Type 0} → Action A → (A → Action B) → Action B
unfolding pure raise lift gets try_except or_raise modify raise_if when if_else now
◌>>=◌ m f w = let (r, w') = m w in resume r f w'

abbrev pub ◌>>◌ : {A B : Type 0} → Action A → Action B → Action B
m >> k = m >>= λ _. k

-- `EventBus.publish` where no handler is subscribed.
unfoldable pub publish : Event → Action (Unit {0})
unfolding modify
publish e = modify (λ w. record w { trace = published e ∷ w.trace })

-- A device call that returns nothing.
unfoldable pub call : (ℕ → Bool) → DeviceCall → Action (Unit {0})
call reply c w = (
  if reply w.tick then ok tt else err device_error,
  record w { trace = called c ∷ w.trace; tick = suc w.tick },
)

unfoldable pub call_payout : (ℕ → PayoutReply) → Plan → Action PayoutReply
call_payout reply p w = (
  elim (reply w.tick) [ payout_raises ↦ err device_error | r ↦ ok r ],
  record w { trace = called (dispense p) ∷ w.trace; tick = suc w.tick },
)

unfoldable pub call_presence : (ℕ → Option Presence) → ℕ → Action Presence
call_presence reply slot w = (
  elim (reply w.tick) [ none ↦ err device_error | some p ↦ ok p ],
  record w { trace = called (read_slot slot) ∷ w.trace; tick = suc w.tick },
)

-- `TransactionCoordinator.require`; the object that it returns is the one in the registry.
unfoldable pub require : ℕ → Action Transaction
unfolding ◌>>=◌
require tid = gets (λ w. lookup tid w.transactions) >>= λ t. or_raise t key_error

abbrev pub store : ℕ → Transaction → Action (Unit {0})
store tid t = modify (λ w. record w { transactions = insert tid t w.transactions })

-- A method that mutates the registered transaction.
unfoldable pub modify_transaction : ℕ → (Transaction → Transaction) → Action (Unit {0})
unfolding require
modify_transaction tid f = require tid >>= λ t. store tid (f t)

-- The same for a method that may raise before it changes anything.
unfoldable pub try_transaction : ℕ → (Transaction → Result Transaction) → Action (Unit {0})
unfolding require
try_transaction tid f = do t ← require tid; t' ← lift (f t); store tid t'
