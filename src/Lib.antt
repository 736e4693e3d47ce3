-- ===== src/Lib.antt =====
-- A model of the flower vending machine's application core, its devices and its store, with
-- what is proved of them.
--
-- The program. A kiosk sells flowers for cash. The core is a set of objects that
-- src/flower_vending/app/bootstrap.py wires together: an orchestrator for each part of a sale, one
-- state machine, one registry of transactions, one money inventory, an event bus, a command bus and
-- an intent journal. A command starts a purchase, opens a cash session, cancels, confirms the
-- pick-up, recovers a transaction or switches the service mode; the bill validator's events and
-- three background loops (validator, health, pick-up time-outs) make the other calls. A paid sale
-- runs through one call: process_validator_event, complete_payment, and, over the event bus,
-- handle_vend_authorized. Before each call of an actuator the orchestrator asks the journal for
-- an intent, after it for an outcome, so that a restart can find what was under way. A request
-- under a key that the journal has already adds no row.
--
-- The files. Paths are from the repository's root, and short ones from src/flower_vending.
--   Prelude: shared names, Boolean tests, integers, dicts as association lists, and exceptions.
--   Domain: domain/entities, domain/aggregates and the Amount and Currency of
--     domain/value_objects. A method that mutates its object is a function to the new object, or
--     to a Result if it may raise.
--   Fsm: app/fsm, with the table of transitions as a Boolean function.
--   Money: domain/entities/money_inventory.py and the planning part of
--     payments/change_manager.py (available_counts, reserve, release, consume, plan_change,
--     _calculate_worst_case_change, assess_sale).
--   App: the rest of the change manager and src/flower_vending/app, as actions. An action takes a
--     World, the state that the objects share, and gives a result and a new World, after a raise
--     too. World.trace records what was asked for: records to journal, device calls and events.
--     App/World has the state and the ways to build an action; App/Journal the intent journal of
--     app/journal.py and infrastructure/persistence/journal.py; App/Bus the event bus;
--     App/Services the registry, the status service and the inventory service; App/Change,
--     App/Payment, App/Vending, App/Dispense, App/Pickup, App/Recovery and App/Service the
--     orchestrators; App/Startup the start of runtime/bootstrap.py; App/Machine the command bus as
--     wired, as a step function on World.
--   App/Journal/Kept says which rows the journal holds, and Answers which intents it reports;
--     World.trace has a request also if it added no row.
--   App/Registry says when the registry of transactions is in order, App/Guard states the order
--     of intents and calls; App/Keeps has the rules by which an invariant passes through every handler; App/Wp has
--     weakest preconditions, and App/Outcome uses them to say how handlers end.
--   Devices: devices/contracts.py and devices/exceptions.py, and in Runner the DeviceCommandRunner of
--     devices/command_policy.py with the device that it tells of faults and heartbeats. An
--     operation takes a Device and gives how it ends, by a value or an exception, and the Device
--     after it. Dbv300 has the driver of the real validator, devices/dbv300sd: its adapter over a
--     Link, what the code calls of a protocol and a transport; the serial transport, over any port
--     library; and the placeholders for the protocols.
--   Simulators: simulators/faults.py and the devices of simulators/devices as such operations.
--   Persistence: the texts, rows and JSON objects of infrastructure/persistence/sqlite/mappers.py
--     and the tables of repositories.py and journal.py, with what the RuntimePersistenceProjector of
--     runtime/bootstrap.py writes to them.
--   Scenarios and Examples: a machine with one product, tests, and the theorems at work.
--
-- What the model leaves out, and how it reads the source.
--   A device is what the environment answers: App/World's Env gives the result of each call as a
--     function of a counter that each call and each look at the clock moves on, so no assumption
--     is made on the devices. A handler that awaits is one action: handlers do not interleave,
--     and locks are left out.
--   Text identifiers and currency codes are numbers, with 0 for the empty text and currency 1 for
--     RUB. Correlation ids, reasons, labels, logging and the times that nothing reads are left out.
--   Denominations and bills are natural numbers, as the validator delivers them; a price and a
--     count in the books may be any integer.
--   The subscribers that runtime/bootstrap.py adds for every event are not part of App/Bus;
--     Persistence/Store has the one that persists. Configuration, the simulator's scenarios, logging
--     and the user interface are left out.
--   SQL statements and JSON are read as what they do to rows and objects. The classifiers that a
--     device command is given are functions of its result; a sleep of a simulated device is
--     overtaken by the policy's time-out if it is as long.
--   Fuel: the search of _calculate_worst_case_change gets two more than the price, one for each
--     underpaid amount that it can reach and one to see that nothing is left. Everything else is
--     structural recursion.
pub mod Prelude
pub mod Domain
pub mod Fsm
pub mod Money
pub mod App
pub mod Devices
pub mod Simulators
pub mod Persistence
pub mod Scenarios
pub mod Examples
