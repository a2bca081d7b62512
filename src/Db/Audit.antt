-- ===== src/Db/Audit.antt =====
-- packages/db/src/index.ts: `audit_log`.
use monok8s.Prelude.{ℕ, Option, List, [], ◌∷◌, Text, lit, or_else}
use monok8s.Services.{AuditLog, PoolId, Query, Trace, Result, number}
use monok8s.Services.Exec.{Exec}
use monok8s.Db.Ask.{nullable, ask}

-- AuditListFilters
pub record AuditListFilters : Type 0 where
  pub action : Option Text
  pub principal_id : Option Text
  pub before : Option Text
  pub limit : Option ℕ

-- What Postgres answers is an argument, since a row holds a JSON value of any type.
module _ {κ} {M : Type κ} (answer : Trace → Query → Result (List (AuditLog M)))
    (pool : PoolId) where
  unfoldable pub list : AuditListFilters → Exec (List (AuditLog M))
  list filters =
      ask answer pool
        (lit
          "SELECT * FROM audit_log WHERE ($1::text IS NULL OR action = $1) AND ($2::uuid IS NULL OR principal_id = $2) AND ($3::timestamptz IS NULL OR created_at < $3) ORDER BY created_at DESC LIMIT $4")
        (nullable filters.action
          ∷ nullable filters.principal_id
          ∷ nullable filters.before
          ∷ number (or_else filters.limit 50)
          ∷ [])
