-- ===== src/Db.antt =====
-- packages/db: the query helpers of src/index.ts, a module for each table, and the pool factory.
pub mod Ask
pub mod Tenants
pub mod Users
pub mod Groups
pub mod Grants
pub mod Pool
pub mod Bench
pub mod Audit
pub mod Secrets
