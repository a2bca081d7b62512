-- ===== src/Frontend.antt =====
-- frontend/src and apps/frontend/src: the portal. Its pure functions, and its components as state machines.
pub mod AuditLog
pub mod Timeline
pub mod Blades
pub mod Principals
pub mod Session
pub mod TenantForm
pub mod AuditPages
pub mod WorkflowRoute
