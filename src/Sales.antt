-- ===== src/Sales.antt =====
-- Checkouts, payments and their settlement: apps/api/src/modules/checkouts, payments and
-- transactions.
pub mod Schema
pub mod Settlement
pub mod Payments
pub mod Recording
pub mod Soundness
pub mod Steps
pub mod Moves
pub mod Runs
mod Tests
