-- ===== src/Tests.antt =====
-- The theorems that have hypotheses or parameters, each at a concrete input.
mod Auth
mod Api
mod Db
mod Events
mod Login
mod Routes
mod Server
mod Sessions
mod Markets
mod Bench
mod Frontend
mod Portal
mod Vault
