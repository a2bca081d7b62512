-- ===== src/Services.antt =====
-- The libraries and servers that the program calls: the SpiceDB client (@authzed/authzed-node), the
-- Temporal client (@temporalio/client), Postgres (pg), the tRPC error type, and random UUIDs. None
-- of them is the repository's code, so an `Env` answers for them: its fields are arbitrary functions
-- of the calls made so far, which makes failures, changing answers and races of other clients
-- possible. What the repository's code does is an `Exec`: it makes calls, reads the answers, and
-- returns or throws.
mod Wire
pub mod Exec
pub mod Traces
pub use Wire.*
