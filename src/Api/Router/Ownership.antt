-- ===== src/Api/Router/Ownership.antt =====
-- apps/api/src/routers/principals.ts and grants.ts: whose the workflows are that a mutation starts.
use monok8s.Api.Workflows.Launches.{Launches}
