-- ===== src/Corrections.antt =====
-- Refunds and reversals of posted sales (apps/api/src/modules/corrections).
pub mod Schema
pub mod Requests
pub mod Decisions
pub mod Execution
pub mod Amounts
pub mod Executed
pub mod Refundable
pub mod Reversals
pub mod Changes
pub mod Runs
pub mod Exclusive
pub mod Payout
mod Tests
