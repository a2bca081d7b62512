-- ===== src/Api/Grants.antt =====
-- apps/api/src/handlers/grants.ts, and the input schemas of apps/api/src/routers/grants.ts.
pub mod Expiry
use monok8s.Prelude.{
  ℕ, ◌+◌, ◌*◌, Bool, false, ◌&&◌, Option, none, some, List, [], ◌∷◌, ◌++◌, Text, lit, length, leb,
  ◌==◌, if◌then◌else◌,
}
use monok8s.Services.{Env, PoolId, TemporaryGrant, clock, signal, ok}
use monok8s.Services.Exec.{Exec, pure, perform, ◌>>=◌, ◌>>◌}
use monok8s.Auth.Roles.{ServiceAccountRole, as_role, role_name, PrincipalType, principal_type_name}
use monok8s.Db.Grants
use monok8s.Api.Workflows.{new_id, start_workflow, onboarding}

-- `GrantableRole` has the members of `ServiceAccountRole`: every role but owner.
pub record CreateInput : Type 0 where
  pub subject_id : Text
  pub subject_type : PrincipalType
  pub role : ServiceAccountRole
  pub duration_seconds : ℕ
  pub reason : Option Text

pub record Created : Type 0 where
  pub grant_id : Text
  pub expires_at : Text
  pub workflow_id : Text

abbrev pub min_duration_seconds : ℕ
min_duration_seconds = 1

abbrev pub max_duration_seconds : ℕ
max_duration_seconds = 24 * 60 * 60

abbrev pub max_reason_len : ℕ
max_reason_len = 256

abbrev fits : Option Text → Bool
fits none = Bool.true
fits (some reason) = leb (length reason) max_reason_len

-- CreateTemporaryGrantSchema, but for the UUID test of `subjectId`; the types carry the rest.
abbrev pub accepts_create : CreateInput → Bool
accepts_create input =
    leb min_duration_seconds input.duration_seconds
    && leb input.duration_seconds max_duration_seconds
    && fits input.reason

abbrev pub is_own : Text → Option TemporaryGrant → Bool
is_own tenant_id none = false
is_own tenant_id (some g) = g.tenant_id == tenant_id

module _ (env : Env) where
  unfoldable pub create_temporary_grant : Text → Text → CreateInput → Exec Created
  create_temporary_grant tenant_id granted_by input = do
    grant_id ← new_id env
    now ← perform (λ h. ok (env.on_clock h)) clock
    let expires_at = env.to_iso (now + input.duration_seconds * 1000)
    let workflow_id = lit "tnt-" ++ (tenant_id ++ (lit "-grant-" ++ grant_id))
    start_workflow env (
        onboarding "TemporaryGrantWorkflow" workflow_id (
          ("TenantID", tenant_id)
          ∷ ("SubjectID", input.subject_id)
          ∷ ("SubjectType", lit (principal_type_name input.subject_type))
          ∷ ("Role", lit (role_name (as_role input.role)))
          ∷ ("GrantID", grant_id)
          ∷ ("ExpiryISO", expires_at)
          ∷ []))
    pure (record { grant_id = grant_id; expires_at = expires_at; workflow_id = workflow_id })

  -- `getHandle` makes no call; the signal has no payload.
  unfoldable pub revoke_temporary_grant : Text → Text → Text → Exec Text
  revoke_temporary_grant tenant_id revoked_by grant_id =
      let workflow_id = lit "tnt-" ++ (tenant_id ++ (lit "-grant-" ++ grant_id)) in
      do
        perform (λ h. env.on_signal h workflow_id "revoke" []) (signal workflow_id "revoke" [])
        pure workflow_id

  module _ (db : PoolId) where
    abbrev pub list_grants : Text → Exec (List TemporaryGrant)
    list_grants = Grants.list env db

    unfoldable pub get_grant : Text → Text → Exec (Option TemporaryGrant)
    get_grant tenant_id id = do
      row ← Grants.find_by_id env db id
      pure (if is_own tenant_id row then row else none)

    unfoldable pub update_grant_reason : Text → Text → Option Text → Exec (Option TemporaryGrant)
    update_grant_reason tenant_id id reason = do
      existing ← Grants.find_by_id env db id
      if is_own tenant_id existing then Grants.update_reason env db id reason else pure none
