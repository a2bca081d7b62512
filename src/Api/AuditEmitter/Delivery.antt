-- ===== src/Api/AuditEmitter/Delivery.antt =====
-- The two steps of the emitter do not depend on each other.
use monok8s.Prelude.{◌≡◌, refl, Option, none, some, ◌∷◌, ◌++◌, Text, lit}
use monok8s.Services.{Env, PoolId, Trace, ok, query, publish}
use monok8s.Auth.Zitadel.{VerifiedUser}
use monok8s.Auth.Audit.{AuditEnvelope}
use monok8s.Api.AuditEmitter.{audit_insert, production_audit_emitter}

module _ {κ} {M : Type κ} (env : Env) (stringify : M → Text) (encode : AuditEnvelope M → Text)
    (user : VerifiedUser) where
  -- The insert that is tried first, where there is a pool.
  abbrev pub inserted_row : Option PoolId → AuditEnvelope M → Trace → Trace
  inserted_row none e h = h
  inserted_row (some pool) e h = query (audit_insert stringify user pool e) ∷ h

  -- The emitter never fails, whatever Postgres and NATS answer: it tries to insert one row, under the
  -- user's tenant and on the pool that it was given, if it was given one, and then, whether that
  -- succeeded or not, to publish the envelope once, on the subject of the user's tenant.
  pub production_audit_emitter-tries_both :
      (db : Option PoolId) (e : AuditEnvelope M) (h : Trace)
      → production_audit_emitter env stringify encode user db e h
        ≡ (ok tt, publish (lit "audit.tenant." ++ user.tenant_id) (encode e) ∷ inserted_row db e h)
  unfolding production_audit_emitter
  production_audit_emitter-tries_both none e h = refl
  production_audit_emitter-tries_both (some pool) e h = refl
