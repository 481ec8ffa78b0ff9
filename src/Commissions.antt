-- ===== src/Commissions.antt =====
-- apps/api/src/modules/commissions: which commission rule applies to a line of a transaction, what
-- it pays, how an adjustment is shared over the lines, and how a refund takes commission back.
mod Tests
pub mod Calculation
pub mod Precedence
pub mod Allocation
pub mod Accrual
pub mod Adjustment
