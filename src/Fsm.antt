-- ===== src/Fsm.antt =====
-- The machine's state machine: src/flower_vending/app/fsm.
pub mod Transitions
pub mod Engine
pub mod Graph
pub mod History
