-- ===== src/App.antt =====
-- The application core: src/flower_vending/app.
pub mod World
pub mod Journal
pub mod Bus
pub mod Services
pub mod Registry
pub mod Change
pub mod Pickup
pub mod Dispense
pub mod Payment
pub mod Vending
pub mod Recovery
pub mod Service
pub mod Guard
pub mod Wp
pub mod Outcome
pub mod Startup
pub mod Machine
pub mod Keeps
