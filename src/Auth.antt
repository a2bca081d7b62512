-- ===== src/Auth.antt =====
-- packages/auth: permissions, tokens and the tRPC middleware.
pub mod Roles
pub mod Schema
pub mod Spice
pub mod Workflow
pub mod Zitadel
pub mod Middleware
pub mod Audit
