-- ===== src/Money.antt =====
-- Change money: domain/entities/money_inventory.py and payments/change_manager.py.
pub mod Counts
pub mod Inventory
pub mod Reservation
pub mod Planning
pub mod WorstCase
pub mod Assessment
