-- ===== src/Access.antt =====
-- Who may do what: apps/api/src/common/authorization, the entitlements of a plan
-- (modules/subscriptions/entitlements.service.ts), and the finer rules that a service applies once
-- past the guard.
pub mod Tenant
pub mod Entitlements
pub mod Guard
pub mod Decisions
mod Tests
