-- ===== src/Api/Tenants.antt =====
-- apps/api/src/handlers/tenants.ts. The test seams `newId` and `canCreate` are their defaults.
pub mod Creation
pub mod Requests
use monok8s.Prelude.{none, Option, List, [], ◌∷◌, ◌++◌, Text, lit, not, or_else, if◌then◌else◌}
use monok8s.Services.{Env, PoolId, Tenant, Thrown, trpc_error, forbidden}
use monok8s.Services.Exec.{Exec, pure, raise, ◌>>=◌, ◌>>◌}
use monok8s.Auth.Spice.{can_on_system}
use monok8s.Db.Tenants
use monok8s.Api.Workflows.{new_id, start_workflow, onboarding}

pub record CreateTenantInput : Type 0 where
  pub slug : Text
  pub plan : Option Text
  pub owner_email : Text

pub record CreateTenantResult : Type 0 where
  pub tenant_id : Text
  pub workflow_id : Text

abbrev pub may_not_create : Thrown
may_not_create =
    trpc_error forbidden (lit "Only members of system:monok8s#create_tenants can create tenants")

module _ (env : Env) (db : PoolId) where
  -- After the permission: the row, then the workflow.
  unfoldable pub provision : CreateTenantInput → Exec CreateTenantResult
  provision input = do
    created ← Tenants.create env db input.slug input.plan
    op_id ← new_id env
    let workflow_id = lit "tnt-" ++ (created.id ++ (lit "-onboard-" ++ op_id))
    start_workflow env (
        onboarding "OnboardTenantWorkflow" workflow_id (
          ("TenantID", created.id)
          ∷ ("Email", input.owner_email)
          ∷ ("Plan", or_else input.plan (lit "starter"))
          ∷ []))
    pure (record { tenant_id = created.id; workflow_id = workflow_id })

  unfoldable pub create_tenant : Text → CreateTenantInput → Exec CreateTenantResult
  create_tenant actor_user_id input = do
    permitted ← can_on_system env actor_user_id none
    if not permitted then raise may_not_create else provision input

  unfoldable pub ping_tenant : Text → Exec (Option Tenant)
  ping_tenant tenant_id = Tenants.find_by_id env db tenant_id
