-- ===== src/Visits.antt =====
-- The live queue of a branch and the service sessions: apps/api/src/modules/queue and
-- apps/api/src/modules/service-sessions.
pub mod Schema
pub mod Queue
pub mod Sessions
pub mod Starting
pub mod Ending
pub mod Races
pub mod Tickets
pub mod Serving
mod Tests
