-- ===== src/App/Machine/Reachable.antt =====
-- What holds in every state that commands lead to: the order of journaling and acting, the
-- permissions, the state machine's history and the journal.
use flower_vending_system.Prelude.{not, List, ◌≡◌, refl}
use flower_vending_system.Domain.Status.{MachineState, MachineStatus, is_blocked}
use flower_vending_system.Fsm.History.{IsLinked, force_state-IsLinked}
use flower_vending_system.App.World.{World, JournalEntry}
use flower_vending_system.App.Journal.Kept.{
  AreIn, AreKept, AreDistinct, ComeFrom, append_entry-AreIn, append_entry-IsKept,
  append_entry-AreKept, append_entry-ComeFrom, append_entry-AreDistinct,
}
use flower_vending_system.App.Guard.{IsWriteAhead}
use flower_vending_system.App.Keeps.Stable.{Stable}
use flower_vending_system.App.Machine.{Command, Settings, run}
use flower_vending_system.App.Machine.Invariant.{run-keeps}

-- Every actuator call of the trace was announced, and every record that the trace asks for has
-- its key in the journal.
abbrev pub IsAnnounced : World → Type 0
IsAnnounced w = IsWriteAhead w.trace × AreKept w.trace w.journal

IsAnnounced-Stable : Stable IsAnnounced
IsAnnounced-Stable = record {
  on_tick = λ w h. h;
  on_publish = λ w e h. h;
  on_entry = λ w e h.
      (h.0, (append_entry-IsKept e w.journal, append_entry-AreKept e w.trace w.journal h.1));
  on_call = λ w c g h. ((g, h.0), h.1);
  on_transactions = λ w ts k h. h;
  on_active = λ w o h. h;
  on_money = λ w m h. h;
  on_slots = λ w s h. h;
  on_deadlines = λ w d h. h;
  on_handling = λ w i h. h;
  on_status = λ w s h. h;
  on_fsm = λ w s h. h;
}

-- Whatever the commands, the sensors and the devices' answers, the machine asks for an intent of
-- the call's action before every call that it makes of an actuator, and neither an outcome of such
-- an action nor another call of that actuator comes between the two; and the journal has a row
-- under the key of every record that was asked for, if both held before the commands. A request
-- under a key that is there adds no row, so that the row can be the one of an earlier call.
pub run-IsWriteAhead :
    (s : Settings) (cs : List Command) (w : World)
    → IsWriteAhead w.trace × AreKept w.trace w.journal
    → IsWriteAhead (run s cs w).trace × AreKept (run s cs w).trace (run s cs w).journal
run-IsWriteAhead s cs w h = run-keeps IsAnnounced-Stable s cs w h

-- The permissions are those that the blockers, the service mode and the state give.
abbrev pub IsRefreshed : MachineStatus → Type 0
IsRefreshed s = (s.allow_cash_sales ≡ not (is_blocked s)) × (s.allow_vending ≡ not (is_blocked s))

IsRefreshed-Stable : Stable (λ w. IsRefreshed w.status)
IsRefreshed-Stable = record {
  on_tick = λ w h. h;
  on_publish = λ w e h. h;
  on_entry = λ w e h. h;
  on_call = λ w c g h. h;
  on_transactions = λ w ts k h. h;
  on_active = λ w o h. h;
  on_money = λ w m h. h;
  on_slots = λ w s h. h;
  on_deadlines = λ w d h. h;
  on_handling = λ w i h. h;
  on_status = λ w s h. (refl, refl);
  on_fsm = λ w s h. h;
}

-- In every state that commands lead to, sales and vending are allowed exactly when nothing
-- blocks sales, the machine is not in service mode and its published state is safe.
pub run-IsRefreshed :
    (s : Settings) (cs : List Command) (w : World)
    → IsRefreshed w.status
    → IsRefreshed (run s cs w).status
run-IsRefreshed s cs w h = run-keeps IsRefreshed-Stable s cs w h

IsLinked-Stable : (start : MachineState) → Stable (λ w. IsLinked start w.fsm)
IsLinked-Stable start = record {
  on_tick = λ w h. h;
  on_publish = λ w e h. h;
  on_entry = λ w e h. h;
  on_call = λ w c g h. h;
  on_transactions = λ w ts k h. h;
  on_active = λ w o h. h;
  on_money = λ w m h. h;
  on_slots = λ w s h. h;
  on_deadlines = λ w d h. h;
  on_handling = λ w i h. h;
  on_status = λ w s h. h;
  on_fsm = λ w s h. force_state-IsLinked start s w.fsm h;
}

-- The state machine's history leads without a gap from its first state to the present one, in
-- every state that commands lead to.
pub run-IsLinked :
    (start : MachineState) (s : Settings) (cs : List Command) (w : World)
    → IsLinked start w.fsm
    → IsLinked start (run s cs w).fsm
run-IsLinked start s cs w h = run-keeps (IsLinked-Stable start) s cs w h

-- The journal holds what it held at the start and a row for every record that the trace asks for,
-- and nothing else, and no key twice.
abbrev pub IsJournal : List JournalEntry → World → Type 0
IsJournal start w =
    AreIn start w.journal
    × AreKept w.trace w.journal
    × ComeFrom start w.trace w.journal
    × AreDistinct w.journal

IsJournal-Stable : (start : List JournalEntry) → Stable (IsJournal start)
IsJournal-Stable start = record {
  on_tick = λ w h. h;
  on_publish = λ w e h. h;
  on_entry = λ w e (i, k, c, d). (
    append_entry-AreIn e start w.journal i,
    (append_entry-IsKept e w.journal, append_entry-AreKept e w.trace w.journal k),
    append_entry-ComeFrom start e w.trace w.journal c,
    append_entry-AreDistinct e w.journal d,
  );
  on_call = λ w c g h. h;
  on_transactions = λ w ts k h. h;
  on_active = λ w o h. h;
  on_money = λ w m h. h;
  on_slots = λ w s h. h;
  on_deadlines = λ w d h. h;
  on_handling = λ w i h. h;
  on_status = λ w s h. h;
  on_fsm = λ w s h. h;
}

-- In every state that commands lead to, the journal has every row that it had at the start and,
-- for every record that was asked for since, a row under its key; every row was there at the
-- start or was asked for; and no two rows have one key; if all that held before the commands.
pub run-IsJournal :
    (start : List JournalEntry) (s : Settings) (cs : List Command) (w : World)
    → IsJournal start w
    → IsJournal start (run s cs w)
run-IsJournal start s cs w h = run-keeps (IsJournal-Stable start) s cs w h
