-- ===== src/Cash.antt =====
-- Cash drawers: apps/api/src/modules/cash. The row of a session is locked before its ledger changes, so
-- one session with its entries and reviews is what a transaction works on.
pub mod Sessions
pub mod Balance
pub mod Runs
mod Tests
