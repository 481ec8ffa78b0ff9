-- ===== src/Checkouts.antt =====
-- Checkouts before they are paid (apps/api/src/modules/checkouts).
pub mod Schema
pub mod Lines
pub mod Creation
pub mod Adjustments
pub mod Totals
pub mod Adjusting
pub mod Identifiers
pub mod Versions
pub mod Runs
mod Tests
