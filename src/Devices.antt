-- ===== src/Devices.antt =====
-- The device layer: src/flower_vending/devices.
pub mod Contracts
pub mod Dbv300
pub mod Errors
pub mod Runner
pub mod Step
