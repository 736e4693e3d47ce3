-- ===== src/App/Guard.antt =====
-- The order of journaling and acting in src/flower_vending/app/orchestrators, as a property of the
-- trace.
use flower_vending_system.Prelude.{
  ℕ, Bool, true, false, not, List, [], ◌∷◌, ◌==◌, if◌then◌else◌, ◌≡◌, arith,
}
use flower_vending_system.App.World.{
  ActionName, DeviceCall, Effect, journaled, called, published, JournalEntry,
}
use flower_vending_system.App.Journal.{is_outcome}

-- The intent that announces a call: a payout is change or a refund.
abbrev pub guards : ActionName → DeviceCall → Bool
guards ActionName.acceptance_enable_requested DeviceCall.enable_acceptance = true
guards ActionName.acceptance_disable_requested DeviceCall.disable_acceptance = true
guards ActionName.change_dispense_requested (DeviceCall.dispense p) = true
guards ActionName.refund_dispense_requested (DeviceCall.dispense p) = true
guards ActionName.motor_vend_requested (DeviceCall.vend_slot s) = true
guards ActionName.window_open_requested DeviceCall.open_window = true
guards ActionName.window_close_requested DeviceCall.close_window = true
guards _ _ = false

-- The calls that move something; a sensor is read without an intent.
abbrev pub actuator : DeviceCall → ℕ
actuator DeviceCall.enable_acceptance = 1
actuator DeviceCall.disable_acceptance = 2
actuator DeviceCall.open_window = 3
actuator DeviceCall.close_window = 4
actuator (DeviceCall.vend_slot s) = 5
actuator (DeviceCall.dispense p) = 6
actuator _ = 0

-- Looking back, the first thing that concerns the actuator is a request to journal an intent: no
-- outcome of such an action was asked for since, and no other call of the actuator was made.
unfoldable pub is_open : DeviceCall → List Effect → Bool
is_open c [] = false
is_open c (journaled e ∷ tr) = if guards e.action c then not (is_outcome e) else is_open c tr
is_open c (called d ∷ tr) = if actuator c == actuator d then false else is_open c tr
is_open c (published e ∷ tr) = is_open c tr

abbrev pub is_guarded : DeviceCall → List Effect → Bool
is_guarded c tr = if actuator c == 0 then true else is_open c tr

-- Before every call of an actuator, an intent was asked for that is the call's own: the request is
-- in the trace also if the journal had its key already and wrote no new row.
abbrev pub IsWriteAhead : List Effect → Type 0
IsWriteAhead [] = Unit {0}
IsWriteAhead (called c ∷ tr) = (is_guarded c tr ≡ true) × IsWriteAhead tr
IsWriteAhead (journaled e ∷ tr) = IsWriteAhead tr
IsWriteAhead (published e ∷ tr) = IsWriteAhead tr

pub is_guarded_of_open :
    (c : DeviceCall) (tr : List Effect) → is_open c tr ≡ true → is_guarded c tr ≡ true
is_guarded_of_open c tr h = ground arith

pub is_open-intent :
    (c : DeviceCall) (e : JournalEntry) (tr : List Effect)
    → guards e.action c ≡ true
    → is_outcome e ≡ false
    → is_open c (journaled e ∷ tr) ≡ true
unfolding is_open
is_open-intent c e tr g o = rw (g, o)
