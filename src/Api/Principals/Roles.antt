-- ===== src/Api/Principals/Roles.antt =====
-- apps/api/src/handlers/principals.ts: reading, assigning, unassigning and changing roles.
pub mod Listing
use monok8s.Prelude.{
  Bool, Option, none, some, List, [], ◌∷◌, ◌++◌, map, Text, lit, String, if◌then◌else◌,
}
use monok8s.Services.{Env}
use monok8s.Services.Exec.{Exec, pure, both, all_of, ◌>>=◌, ◌>>◌}
use monok8s.Auth.Roles.{
  TenantRole, role_name, PrincipalType, user, service_account, principal_type_name,
}
use monok8s.Auth.Spice.{obj, check_relation, lookup_subjects_of}
use monok8s.Api.Workflows.{new_id, start_workflow, onboarding}

-- TENANT_ROLES, in their order.
abbrev pub tenant_roles : List TenantRole
tenant_roles =
    TenantRole.owner ∷ TenantRole.admin ∷ TenantRole.member ∷ TenantRole.viewer
    ∷ TenantRole.billing_manager ∷ []

pub record Principal : Type 0 where
  pub id : Text
  pub type : PrincipalType

-- `results.filter((r) => r !== null)`
abbrev pub non_null : List (Option TenantRole) → List TenantRole
non_null [] = []
non_null (none ∷ rs) = non_null rs
non_null (some r ∷ rs) = r ∷ non_null rs

pub record RoleHolders : Type 0 where
  pub users : List Text
  pub service_accounts : List Text

module _ (env : Env) where
  -- One check of the map's callback: the role, or null.
  unfoldable pub probe : Text → Principal → TenantRole → Exec (Option TenantRole)
  probe tenant_id principal role = do
    allowed ←
        check_relation env (obj "tenant" tenant_id) (role_name role) principal.type principal.id
          none
    pure (if allowed then some role else none)

  unfoldable pub list_roles_for_principal : Text → Principal → Exec (List TenantRole)
  list_roles_for_principal tenant_id principal = do
    results ← all_of (map (probe tenant_id principal) tenant_roles)
    pure (non_null results)

  unfoldable pub expand_principals_for_role : Text → TenantRole → Exec RoleHolders
  expand_principals_for_role tenant_id role = do
    (users, service_accounts) ←
        both (lookup_subjects_of env (obj "tenant" tenant_id) (role_name role) user none)
          (lookup_subjects_of env (obj "tenant" tenant_id) (role_name role) service_account none)
    pure (record { users = users; service_accounts = service_accounts })

  -- The three mutations return the ID of the workflow that they start.
  unfoldable pub assign_tenant_role : Text → Text → Principal → TenantRole → Exec Text
  assign_tenant_role tenant_id assigned_by principal role = do
    assignment_id ← new_id env
    let workflow_id = lit "tnt-" ++ (tenant_id ++ (lit "-role-assign-" ++ assignment_id))
    start_workflow env (
        onboarding "TenantRoleAssignWorkflow" workflow_id (
          ("TenantID", tenant_id)
          ∷ ("SubjectID", principal.id)
          ∷ ("SubjectType", lit (principal_type_name principal.type))
          ∷ ("Role", lit (role_name role))
          ∷ ("AssignedBy", assigned_by)
          ∷ []))
    pure workflow_id

  unfoldable pub unassign_tenant_role : Text → Text → Principal → TenantRole → Exec Text
  unassign_tenant_role tenant_id unassigned_by principal role = do
    unassignment_id ← new_id env
    let workflow_id = lit "tnt-" ++ (tenant_id ++ (lit "-role-unassign-" ++ unassignment_id))
    start_workflow env (
        onboarding "TenantRoleUnassignWorkflow" workflow_id (
          ("TenantID", tenant_id)
          ∷ ("SubjectID", principal.id)
          ∷ ("SubjectType", lit (principal_type_name principal.type))
          ∷ ("Role", lit (role_name role))
          ∷ ("UnassignedBy", unassigned_by)
          ∷ []))
    pure workflow_id

  unfoldable pub change_tenant_role : Text → Text → Principal → TenantRole → TenantRole → Exec Text
  change_tenant_role tenant_id changed_by principal old_role new_role = do
    change_id ← new_id env
    let workflow_id = lit "tnt-" ++ (tenant_id ++ (lit "-role-change-" ++ change_id))
    start_workflow env (
        onboarding "TenantRoleChangeWorkflow" workflow_id (
          ("TenantID", tenant_id)
          ∷ ("SubjectID", principal.id)
          ∷ ("SubjectType", lit (principal_type_name principal.type))
          ∷ ("OldRole", lit (role_name old_role))
          ∷ ("NewRole", lit (role_name new_role))
          ∷ ("ChangedBy", changed_by)
          ∷ []))
    pure workflow_id
