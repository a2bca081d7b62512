-- ===== src/Lib.antt =====
-- A model of monok8s: the core of its TypeScript services and packages.
--
-- The API server (apps/api) answers tRPC calls. A call passes the guards of packages/auth, which verify
-- its token, ask SpiceDB for a permission and fetch the tenant's connection pool from packages/db; a
-- handler of apps/api/src/handlers then reads Postgres, asks SpiceDB, or starts a workflow on
-- Temporal. The workflows, in Go, write the relations that packages/auth/src/spicedb.ts describes.
--
-- Services: what is outside. An `Env` answers every call, as any function of the calls made
--   before it; code is an `Exec`, which returns or throws and leaves a trace of its calls.
--   `Promise.all` makes its calls in order; its failures do not stop the others.
-- Auth.Roles, Auth.Spice, Auth.Spice.Writes: packages/auth/src/spicedb.ts, a function of the model for
--   each function (canOnTenant is can_on_tenant), the write functions as constructors of `Write`.
-- Auth.Schema: packages/auth/schema.zed, the relations that it accepts, the permissions of a tenant.
-- Auth.Workflow: canOnWorkflow, and the regular expression of tenant workflow IDs.
-- Auth.Zitadel: packages/auth/src/zitadel.ts, from the verified payload on.
-- Auth.Middleware, Auth.Audit: packages/auth/src/middleware.ts; `next`, the verifier, the pool factory and
--   the emitter are arguments.
-- Db.Tenants, Db.Users, Db.Groups, Db.Grants: packages/db/src/index.ts, with its SQL text. What
--   Postgres answers is the `Env`'s, so no property says what a statement does. A statement that the
--   source lays out over several lines is written on one.
-- Db.Pool: packages/db/src/pool.ts as a step function; an event is a piece that the event loop runs.
-- Db.Audit: its audit.list. Db.Secrets: packages/db/src/k8s.ts; the HTTP call is the `Env`'s, JSON and
--   base64 are arguments.
-- Db.Bench: packages/db/bench/check_regression.ts; the files that it reads are arguments.
-- Api.Principals, Api.Grants, Api.Tenants: the handlers of those names in apps/api/src/handlers.
-- Api.Router: the mutations of apps/api/src/routers/principals.ts and grants.ts that start a workflow; its
--   Edits, those that start none.
-- Api.AuditEmitter: apps/api/src/audit_emitter.ts.
-- Api.Events: apps/api/src/handlers/events.ts, a step for each piece between two `await`s; its Requests,
--   routers/events.ts. Api.Tenants.Requests: routers/tenants.ts.
-- Api.Sessions, Api.Login: apps/api/src/handlers/sessions.ts and auth.ts; random IDs and the time are
--   arguments.
-- Api.Sessions.History: sequences of calls on the store, and the directory that it promises to be.
-- Api.Login.Discovery: apps/api/src/effects/oidc.ts, and the cache of getDiscovery in auth.ts.
-- Api.AuthRoutes: apps/api/src/routers/auth.ts, from a request to its response; the URL class is an
--   argument. Requests run one after another: what comes between the `await`s of one is not modelled.
-- Api.Sessions.Cookies: the cookie texts of sessions.ts; its Browser reads a Set-Cookie text as RFC 6265 says.
-- Api.Config: apps/api/src/config.ts. Api.Server: index.ts and context.ts, which handler a request goes to
--   and the token that a procedure gets. Api.Connections: nats.ts and temporal.ts, a step for a call and one
--   for the outcome of the connecting.
-- Api.Installations, Api.Marketplace: the routers of those names in apps/api/src/routers, with the
--   effects alertmanager.ts and sns.ts; the result of a workflow is an argument.
-- Api.Audit: routers/audit.ts and handlers/audit.ts. Api.System: routers/system.ts.
-- Api.Router.Schemas: the schemas of the inputs in routers/principals.ts.
-- Frontend.AuditLog: the pure functions of frontend/src/components/AuditLogView.tsx; its Csv is an
--   independent reader of CSV. Frontend.AuditPages: frontend/src/routes/Audit.tsx, an event for each thing
--   that sets a signal.
-- Frontend.Timeline, Frontend.WorkflowRoute: frontend/src/components/WorkflowTimeline.tsx, the loop of
--   deriveTimeline as `play`, and routes/Workflows.tsx. Timeline.History says of the events, without a
--   loop, what a timeline shows.
-- Frontend.Principals: the validators of frontend/src/components/PrincipalAdmin.tsx; its Users, Groups and
--   Roles are the tabs, state machines on what is clicked and answered, with the handlers of
--   routes/Principals.tsx, which Handlers cuts at their `await`s.
-- Frontend.Session: frontend/src/lib/auth.tsx. Frontend.TenantForm: routes/TenantNew.tsx.
-- Frontend.Blades: apps/frontend/src/layouts/BladeStack.tsx, the stack and its buttons.
-- Cloud.Secrets, Cloud.Database, Cloud.Observability: the bare-metal adapters of packages/cloud-adapters.
--   The server that one calls is an argument, a function with a state; what its documentation promises is
--   a record of laws (IsTransit, IsApiServer); Tests.Vault has a server that keeps one. Cloud.Secrets.Burial is about later operations.
-- Prelude: shared names and lemmas. Fixtures and Tests: concrete data, and the theorems applied to it.
--
-- Text is a list of code units. Times are natural numbers of milliseconds. Nothing runs on fuel but
-- the printing of a number, where the number itself is more digits than it has (Db.Ask.Numbers).
--
-- Not modelled: the markup of the user interfaces, the shells, themes and tables of terms, and routes that
-- show one resource; the storage adapter, which hands its calls on, and the adapters that are stubs; the
-- flags, observability and tRPC wrappers, the Go workers, and what only starts servers and connections. Of the marketplace router,
-- meteringStatus, whose permission check packages/auth does not export. Of the input schemas, the UUID
-- and time tests are arguments, and the refusal of unknown fields is left out.
pub mod Prelude
pub mod Services
pub mod Auth
pub mod Db
pub mod Api
pub mod Cloud
pub mod Frontend
pub mod Fixtures
pub mod Tests
