-- ===== src/Api/Principals/Groups.antt =====
-- apps/api/src/handlers/principals.ts: groups and their members.
pub mod Isolation
use monok8s.Prelude.{
  Bool, Option, none, some, List, [], ◌∷◌, ◌++◌, Text, lit, ◌==◌, if◌then◌else◌, or_else,
}
use monok8s.Services.{Env, PoolId, Group}
use monok8s.Services.Exec.{Exec, pure, ◌>>=◌, ◌>>◌}
use monok8s.Auth.Roles.{user}
use monok8s.Auth.Spice.{obj, lookup_subjects_of}
use monok8s.Db.Groups
use monok8s.Db.Groups.{Patch}
use monok8s.Api.Workflows.{new_id, start_workflow, onboarding}

-- `existing !== null && existing.tenant_id === tenantId`
abbrev pub is_own : Text → Option Group → Bool
is_own tenant_id none = Bool.false
is_own tenant_id (some g) = g.tenant_id == tenant_id

module _ (env : Env) (db : PoolId) where
  abbrev pub list_groups_in_tenant : Text → Exec (List Group)
  list_groups_in_tenant = Groups.list env db

  abbrev pub get_group : Text → Exec (Option Group)
  get_group = Groups.find_by_id env db

  -- `parentGroupId` may be absent, null or a value.
  abbrev pub create_group : Text → Text → Option (Option Text) → Exec Group
  create_group tenant_id name parent_group_id =
      Groups.create env db tenant_id name (or_else parent_group_id none)

  unfoldable pub update_group : Text → Text → Patch → Exec (Option Group)
  update_group tenant_id id input = do
    existing ← Groups.find_by_id env db id
    if is_own tenant_id existing then Groups.update env db id input else pure none

  unfoldable pub delete_group : Text → Text → Exec (Option Text)
  delete_group tenant_id id = do
    existing ← Groups.find_by_id env db id
    if is_own tenant_id existing then Groups.delete env db id else pure none

module _ (env : Env) where
  abbrev pub list_group_members : Text → Exec (List Text)
  list_group_members group_id = lookup_subjects_of env (obj "group" group_id) "member" user none

  unfoldable pub add_group_member : Text → Text → Text → Text → Exec Text
  add_group_member tenant_id added_by group_id user_id = do
    op_id ← new_id env
    let workflow_id = lit "tnt-" ++ (tenant_id ++ (lit "-group-add-member-" ++ op_id))
    start_workflow env (
        onboarding "TenantGroupMemberAddWorkflow" workflow_id (
          ("TenantID", tenant_id)
          ∷ ("GroupID", group_id)
          ∷ ("UserID", user_id)
          ∷ ("AddedBy", added_by)
          ∷ []))
    pure workflow_id

  unfoldable pub remove_group_member : Text → Text → Text → Text → Exec Text
  remove_group_member tenant_id removed_by group_id user_id = do
    op_id ← new_id env
    let workflow_id = lit "tnt-" ++ (tenant_id ++ (lit "-group-remove-member-" ++ op_id))
    start_workflow env (
        onboarding "TenantGroupMemberRemoveWorkflow" workflow_id (
          ("TenantID", tenant_id)
          ∷ ("GroupID", group_id)
          ∷ ("UserID", user_id)
          ∷ ("RemovedBy", removed_by)
          ∷ []))
    pure workflow_id
