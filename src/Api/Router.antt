-- ===== src/Api/Router.antt =====
-- apps/api/src/routers/principals.ts and routers/grants.ts: the mutations that start a workflow, as
-- one type of requests (suspend and reinstate of `users`, add_member and remove_member of `groups`, assign,
-- unassign and change of `roles`, create_temporary of the grants). Edits has the other mutations. The schemas' UUID tests and `.strict()` are not modelled; their refinements
-- are. `withTemporal` (the connection to Temporal) is taken to succeed.
pub mod Ownership
pub mod Schemas
pub mod Edits
use monok8s.Prelude.{Bool, true, false, not, ◌&&◌, [], Text, if◌then◌else◌}
use monok8s.Services.{Env, Thrown, trpc_error, bad_request}
use monok8s.Services.Exec.{Exec, pure, raise, ◌>>=◌}
use monok8s.Auth.Roles.{TenantRole, PrincipalType, user, service_account}
use monok8s.Api.Principals.Roles.{
  Principal, assign_tenant_role, unassign_tenant_role, change_tenant_role,
}
use monok8s.Api.Principals.Groups.{add_group_member, remove_group_member}
use monok8s.Api.Principals.Suspension.{suspend_user, reinstate_user}
use monok8s.Api.Grants.{CreateInput, accepts_create, create_temporary_grant}

pub data Mutation : Type 0 where
  suspend reinstate : Text → Mutation
  add_member remove_member : Text → Text → Mutation
  assign unassign : Principal → TenantRole → Mutation
  change : Principal → TenantRole → TenantRole → Mutation
  create_temporary : CreateInput → Mutation

abbrev pub is_owner : TenantRole → Bool
is_owner TenantRole.owner = true
is_owner _ = false

abbrev pub is_account : PrincipalType → Bool
is_account user = false
is_account service_account = true

abbrev pub same_role : TenantRole → TenantRole → Bool
same_role TenantRole.owner TenantRole.owner = true
same_role TenantRole.admin TenantRole.admin = true
same_role TenantRole.member TenantRole.member = true
same_role TenantRole.viewer TenantRole.viewer = true
same_role TenantRole.billing_manager TenantRole.billing_manager = true
same_role _ _ = false

-- The refinements of AssignRoleSchema, UnassignRoleSchema, ChangeRoleSchema and the bounds of
-- CreateTemporaryGrantSchema.
unfoldable pub accepts : Mutation → Bool
accepts (assign p role) = not (is_owner role && is_account p.type)
accepts (unassign p role) = not (is_owner role && is_account p.type)
accepts (change p old_role new_role) =
    not (same_role old_role new_role) && not (is_owner new_role && is_account p.type)
accepts (create_temporary input) = accepts_create input
accepts _ = true

module _ (env : Env) where
  -- The procedure's body; the answer's `workflowId`.
  pub resolve : Text → Text → Mutation → Exec Text
  resolve tenant_id actor (suspend u) = suspend_user env tenant_id actor u
  resolve tenant_id actor (reinstate u) = reinstate_user env tenant_id actor u
  resolve tenant_id actor (add_member g u) = add_group_member env tenant_id actor g u
  resolve tenant_id actor (remove_member g u) = remove_group_member env tenant_id actor g u
  resolve tenant_id actor (assign p role) = assign_tenant_role env tenant_id actor p role
  resolve tenant_id actor (unassign p role) = unassign_tenant_role env tenant_id actor p role
  resolve tenant_id actor (change p old_role new_role) =
      change_tenant_role env tenant_id actor p old_role new_role
  resolve tenant_id actor (create_temporary input) = do
    created ← create_temporary_grant env tenant_id actor input
    pure created.workflow_id

  -- A refused input is a BAD_REQUEST.
  pub mutate : Text → Text → Mutation → Exec Text
  mutate tenant_id actor m =
      if accepts m then resolve tenant_id actor m else raise (trpc_error bad_request [])
