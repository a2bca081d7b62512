-- ===== src/Api/AuditEmitter.antt =====
-- apps/api/src/audit_emitter.ts: the emitter that the audit middleware is given at start-up.
-- `JSON.stringify`, of the metadata and of the envelope, is an argument; `connectNats` and `publish`
-- are one call, which may fail.
pub mod Delivery
use monok8s.Prelude.{Option, none, some, [], ◌∷◌, ◌++◌, Text, lit}
use monok8s.Services.{Env, PoolId, Param, null, text, Query, query, publish}
use monok8s.Services.Exec.{Exec, pure, perform, ◌>>=◌}
use monok8s.Db.Ask.{nullable}
use monok8s.Auth.Zitadel.{VerifiedUser}
use monok8s.Auth.Middleware.{attempt}
use monok8s.Auth.Audit.{AuditEnvelope, Outcome, success, failed}

abbrev pub outcome_name : Outcome → Text
outcome_name success = lit "success"
outcome_name (failed _) = lit "error"

abbrev pub error_param : Outcome → Param
error_param success = null
error_param (failed message) = text message

module _ {κ} {M : Type κ} where
  abbrev pub metadata_param : (M → Text) → Option M → Param
  metadata_param stringify none = null
  metadata_param stringify (some m) = text (stringify m)

  abbrev pub audit_insert : (M → Text) → VerifiedUser → PoolId → AuditEnvelope M → Query
  audit_insert stringify user pool e = record {
    pool = pool;
    sql =
        lit
          "INSERT INTO audit_log (tenant_id, principal_id, principal_type, action, target_kind, target_id, outcome, error_message, metadata, created_at) VALUES ($1, $2, $3, $4, $5, $6, $7, $8, $9, $10)";
    params =
        text user.tenant_id
        ∷ text e.principal
        ∷ text (lit "user")
        ∷ text e.action
        ∷ text e.target.kind
        ∷ nullable e.target.id
        ∷ text (outcome_name e.outcome)
        ∷ error_param e.outcome
        ∷ metadata_param stringify e.metadata
        ∷ text e.timestamp
        ∷ [];
  }

  module _ (env : Env) (stringify : M → Text) (encode : AuditEnvelope M → Text) where
    -- Without a pool, the row is skipped.
    abbrev pub insert_row : VerifiedUser → Option PoolId → AuditEnvelope M → Exec (Unit {0})
    insert_row user none e = pure tt
    insert_row user (some pool) e =
        let q = audit_insert stringify user pool e in
        do _ ← attempt (perform (λ h. env.on_insert h q) (query q)); pure tt

    unfoldable pub production_audit_emitter :
        VerifiedUser → Option PoolId → AuditEnvelope M → Exec (Unit {0})
    production_audit_emitter user db e =
        let subject = lit "audit.tenant." ++ user.tenant_id in
        do
          _ ← insert_row user db e
          _ ←
              attempt
                (perform (λ h. env.on_publish h subject (encode e)) (publish subject (encode e)))
          pure tt
