-- ===== src/Api/Principals/Suspension.antt =====
-- apps/api/src/handlers/principals.ts: suspending and reinstating users, and the guards of owners.
pub mod Answers
pub mod Guards
pub mod Owners
pub mod Launches
mod Tests
use monok8s.Prelude.{
  Bool, true, false, not, ◌&&◌, ◌||◌, Option, none, List, [], ◌∷◌, ◌++◌, map, Text, lit, ◌==◌,
  filter, is_empty, if◌then◌else◌,
}
use monok8s.Services.{Env, Thrown, trpc_error, forbidden}
use monok8s.Services.Exec.{Exec, pure, raise, both, all_of, ◌>>=◌, ◌>>◌}
use monok8s.Auth.Roles.{user}
use monok8s.Auth.Spice.{obj, check_relation, is_platform_admin, lookup_subjects_of}
use monok8s.Api.Workflows.{new_id, start_workflow, onboarding}

abbrev pub cannot_govern : Thrown
cannot_govern =
    trpc_error forbidden (lit "Only an owner or platform admin can act on another owner")

abbrev pub last_owner : Thrown
last_owner = trpc_error forbidden (lit "Cannot suspend the last owner of this tenant")

abbrev pub last_unsuspended_owner : Thrown
last_unsuspended_owner =
    trpc_error forbidden (lit "Cannot suspend the last unsuspended owner of this tenant")

module _ (env : Env) where
  pub target_is_owner : Text → Text → Exec Bool
  target_is_owner tenant_id user_id =
      check_relation env (obj "tenant" tenant_id) "transfer_ownership" user user_id none

  -- The rest of the guard, for a target that is an owner.
  pub may_act : Text → Text → Exec (Unit {0})
  may_act tenant_id actor_user_id = do
    (actor_is_owner, actor_is_platform_admin) ←
        both (target_is_owner tenant_id actor_user_id) (is_platform_admin env actor_user_id)
    if not actor_is_owner && not actor_is_platform_admin then raise cannot_govern else pure tt

  pub assert_can_govern_owner : Text → Text → Text → Exec (Unit {0})
  assert_can_govern_owner tenant_id actor_user_id target_user_id = do
    is_owner_target ← target_is_owner tenant_id target_user_id
    if not is_owner_target then pure tt else may_act tenant_id actor_user_id

  abbrev pub suspended_probe : Text → Text → Exec Bool
  suspended_probe tenant_id owner_id =
      check_relation env (obj "tenant" tenant_id) "suspended" user owner_id none

  -- The second half of the guard, for the owners other than the target.
  pub some_unsuspended : Text → List Text → Exec (Unit {0})
  some_unsuspended tenant_id others = do
    suspended_flags ← all_of (map (suspended_probe tenant_id) others)
    if is_empty (filter (λ suspended. not suspended) suspended_flags)
        then raise last_unsuspended_owner
        else pure tt

  pub assert_not_last_owner : Text → Text → Exec (Unit {0})
  assert_not_last_owner tenant_id target_user_id = do
    owners ← lookup_subjects_of env (obj "tenant" tenant_id) "owner" user none
    let others = filter (λ id. not (id == target_user_id)) owners
    if is_empty others then raise last_owner else some_unsuspended tenant_id others

  pub dispatch_suspend : Text → Text → Text → Exec Text
  dispatch_suspend tenant_id suspended_by user_id = do
    op_id ← new_id env
    let workflow_id = lit "tnt-" ++ (tenant_id ++ (lit "-user-suspend-" ++ op_id))
    start_workflow env (
        onboarding "TenantUserSuspendWorkflow" workflow_id
          (("TenantID", tenant_id) ∷ ("UserID", user_id) ∷ ("SuspendedBy", suspended_by) ∷ []))
    pure workflow_id

  pub suspend_user : Text → Text → Text → Exec Text
  suspend_user tenant_id suspended_by user_id = do
    assert_can_govern_owner tenant_id suspended_by user_id
    assert_not_last_owner tenant_id user_id
    dispatch_suspend tenant_id suspended_by user_id

  pub dispatch_reinstate : Text → Text → Text → Exec Text
  dispatch_reinstate tenant_id reinstated_by user_id = do
    op_id ← new_id env
    let workflow_id = lit "tnt-" ++ (tenant_id ++ (lit "-user-reinstate-" ++ op_id))
    start_workflow env (
        onboarding "TenantUserReinstateWorkflow" workflow_id
          (("TenantID", tenant_id) ∷ ("UserID", user_id) ∷ ("ReinstatedBy", reinstated_by) ∷ []))
    pure workflow_id

  pub reinstate_user : Text → Text → Text → Exec Text
  reinstate_user tenant_id reinstated_by user_id = do
    assert_can_govern_owner tenant_id reinstated_by user_id
    dispatch_reinstate tenant_id reinstated_by user_id
