-- ===== src/Examples.antt =====
-- Tests of the model, and the theorems at concrete inputs.
mod Fsm
mod Money
mod Machine
mod Handlers
mod Outcomes
mod Devices
mod Store
mod Validator
mod Journal
mod Cancel
