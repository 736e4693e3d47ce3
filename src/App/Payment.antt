-- ===== src/App/Payment.antt =====
-- app/orchestrators/payment_coordinator.py, method by method.
pub mod Switch
pub mod Session
pub mod Settle
pub mod Events
pub mod Cancel
