-- ===== src/Simulators.antt =====
-- The simulated devices: src/flower_vending/simulators.
pub mod Faults
pub mod Base
pub mod Motor
pub mod Window
pub mod Watchdog
pub mod Validator
pub mod Dispenser
pub mod Sensors
