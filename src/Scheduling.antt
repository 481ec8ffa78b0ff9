-- ===== src/Scheduling.antt =====
-- apps/api/src/common/scheduling: local times and the arithmetic of opening and working hours.
mod Tests
pub mod LocalTime
pub mod Intervals
