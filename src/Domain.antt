-- ===== src/Domain.antt =====
-- The domain layer: src/flower_vending/domain.
pub mod Amount
pub mod Session
pub mod Reserve
pub mod Statuses
pub mod Transaction
pub mod Slot
pub mod Status
