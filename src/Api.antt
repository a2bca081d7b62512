-- ===== src/Api.antt =====
-- apps/api/src: the handlers of the API server.
pub mod Workflows
pub mod Principals
pub mod Grants
pub mod Router
pub mod Sessions
pub mod Login
pub mod Tenants
pub mod AuditEmitter
pub mod Events
pub mod Config
pub mod AuthRoutes
pub mod Marketplace
pub mod Installations
pub mod Audit
pub mod System
pub mod Server
pub mod Connections
