-- ===== src/Inventory.antt =====
-- The stock of an organization's branches (apps/api/src/modules/products).
pub mod Stock
pub mod Rows
pub mod Ledger
pub mod Balance
pub mod Runs
mod Tests
