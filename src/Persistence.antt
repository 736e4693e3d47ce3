-- ===== src/Persistence.antt =====
-- What is stored: src/flower_vending/infrastructure/persistence.
pub mod Texts
pub mod Records
pub mod Mappers
pub mod Store
pub mod Journal
