-- ===== src/Simulators/Validator.antt =====
-- simulators/devices/mock_bill_validator.py. The queue of events is a list, oldest first.
pub mod Feed
use flower_vending_system.Prelude.{
  ℕ, Bool, true, false, not, ◌||◌, Option, none, some, List, [], ◌∷◌, ◌++◌, contains, is_some,
  if◌then◌else◌,
}
use flower_vending_system.Prelude.Int.{ℤ}
use flower_vending_system.Prelude.Result.{Result, ok, err}
use flower_vending_system.App.World.{ValidatorEventType}
use flower_vending_system.Devices.Contracts.{
  FaultCode, OperationalState, CommandPolicy, MoneyValue, make_money_value, ValidatorEvent,
}
use flower_vending_system.Devices.Errors.{
  adapter, other_error, adapter_error, not_started, unsupported, Outcome, returned, raised,
}
use flower_vending_system.Devices.Runner.{
  Operation, Command, plain_command, heartbeat, activate_fault, run_command,
}
use flower_vending_system.Devices.Step.{Step, give, unless, ◌>>=◌, ◌>>◌, update}
use flower_vending_system.Simulators.Faults.{FaultPlan}
use flower_vending_system.Simulators.Base.{
  Mock, MockDevice, with_body, consume, consume_policy_fault, consume_own_fault, policy_codes,
}

pub record ValidatorBody : Type 0 where
  pub supported_bill_values : List ℕ
  pub escrow_supported : Bool
  pub accepting : Bool
  pub events : List ValidatorEvent

abbrev pub ValidatorParts : Type 0
ValidatorParts = Mock ValidatorBody

abbrev pub ValidatorDevice : Type 0
ValidatorDevice = MockDevice ValidatorBody (Unit {0})

abbrev pub ValidatorOperation : Type 0
ValidatorOperation = Operation ValidatorParts (Unit {0})

abbrev pub new_validator : List ℕ → Bool → ValidatorBody
new_validator values escrow = record {
  supported_bill_values = values;
  escrow_supported = escrow;
  accepting = false;
  events = [];
}

abbrev pub set_accepting : Bool → ValidatorDevice → ValidatorDevice
set_accepting b d = with_body (record d.parts.body { accepting = b }) d

-- `self._events.put(...)`
abbrev pub put_event : ValidatorEventType → Option MoneyValue → ValidatorDevice → ValidatorDevice
put_event type bill d =
    with_body
      (record d.parts.body {
        events = d.parts.body.events ++ (record { event_type = type; bill_value = bill } ∷ []);
      })
      d

unfoldable pub enable_once : CommandPolicy → ValidatorOperation
unfolding ◌>>=◌ update consume_policy_fault consume_own_fault
enable_once p = do
  consume_policy_fault p.timeout policy_codes
  consume_own_fault FaultCode.validator_unavailable
  update (set_accepting true)
  update (heartbeat OperationalState.ready)

-- The numbers of the commands' names: enable_acceptance 0, disable_acceptance 1.
unfoldable pub enable_acceptance : CommandPolicy → Option ℕ → ValidatorOperation
unfolding unless run_command enable_once
enable_acceptance p cid d =
    unless (not d.started) (adapter not_started)
      (run_command p (plain_command 0 cid) (enable_once p)) d

unfoldable pub disable_once : CommandPolicy → ValidatorOperation
unfolding ◌>>=◌ update consume_policy_fault
disable_once p = do
  consume_policy_fault p.timeout policy_codes
  update (set_accepting false)
  update (heartbeat OperationalState.disabled)
  update (put_event ValidatorEventType.validator_disabled none)

abbrev pub disable_command : Option ℕ → Command (Unit {0})
disable_command cid = record (plain_command {R = Unit {0}} 1 cid) {
  success_state = OperationalState.disabled;
}

unfoldable pub disable_acceptance : CommandPolicy → Option ℕ → ValidatorOperation
unfolding run_command disable_once
disable_acceptance p cid = run_command p (disable_command cid) (disable_once p)

-- `accept_escrow` and `return_escrow`
unfoldable pub use_escrow : ValidatorOperation
unfolding unless give
use_escrow d = unless (not d.parts.body.escrow_supported) (adapter unsupported) (give tt) d

abbrev take_first :
    List ValidatorEvent → ValidatorDevice → Outcome (Option ValidatorEvent) × ValidatorDevice
take_first [] d = (returned none, d)
take_first (e ∷ es) d = (returned (some e), with_body (record d.parts.body { events = es }) d)

-- `read_event` with a time-out: none if the queue stays empty.
unfoldable pub read_event : Step ValidatorParts (Unit {0}) (Option ValidatorEvent)
read_event d = take_first d.parts.body.events d

abbrev pub put_bill : ValidatorEventType → MoneyValue → ValidatorOperation
put_bill type bill d = (returned tt, put_event type (some bill) d)

-- The bill is taken.
unfoldable pub stack_bill : MoneyValue → ValidatorOperation
unfolding ◌>>=◌ give
stack_bill bill = do
  put_bill ValidatorEventType.bill_validated bill
  λ d.
      (if d.parts.body.escrow_supported
          then put_bill ValidatorEventType.escrow_available bill
          else give tt)
        d
  put_bill ValidatorEventType.bill_stacked bill

abbrev is_supported : MoneyValue → ValidatorDevice → Bool
is_supported bill d = contains bill.minor_units d.parts.body.supported_bill_values

abbrev jammed : MoneyValue → FaultPlan → ValidatorOperation
jammed bill plan d = (
  returned tt,
  put_event ValidatorEventType.validator_fault (some bill)
      (activate_fault plan.code true (set_accepting false d)),
)

abbrev judge : MoneyValue → Option FaultPlan → ValidatorOperation
judge bill rejected d =
    (if is_some rejected || not (is_supported bill d)
        then put_bill ValidatorEventType.bill_rejected bill
        else stack_bill bill)
      d

abbrev after_jam : MoneyValue → Option FaultPlan → ValidatorOperation
after_jam bill (some plan) = jammed bill plan
after_jam bill none = consume FaultCode.bill_rejected >>= judge bill

unfoldable pub feed_bill : MoneyValue → ValidatorOperation
unfolding ◌>>=◌ stack_bill consume
feed_bill bill = do
  put_bill ValidatorEventType.bill_detected bill
  jam ← consume FaultCode.bill_jam
  after_jam bill jam

abbrev pub feed_value : Result MoneyValue → ValidatorOperation
feed_value (err _) d = (raised other_error, d)
feed_value (ok bill) d = feed_bill bill d

-- `simulate_insert_bill`
unfoldable pub insert_bill : ℤ → ℕ → ValidatorOperation
unfolding unless feed_bill
insert_bill minor_units currency d =
    unless (not d.started) (adapter not_started)
      (unless (not d.parts.body.accepting) (adapter adapter_error)
        (feed_value (make_money_value minor_units currency)))
      d
