-- ===== src/Api/Router/Edits.antt =====
-- apps/api/src/routers/principals.ts and routers/grants.ts: the mutations that start no workflow, with
-- the schemas of their inputs. zod's test of UUIDs is the argument `is_uuid`; `.strict()` is not modelled.
-- `withTemporal` is taken to succeed.
pub mod Quiet
use monok8s.Prelude.{Bool, true, ◌&&◌, Option, none, some, [], Text, leb, length, if◌then◌else◌}
use monok8s.Services.{Env, PoolId, Group, TemporaryGrant, trpc_error, bad_request}
use monok8s.Services.Exec.{Exec, pure, raise, ◌>>=◌}
use monok8s.Db.Groups.{Patch}
use monok8s.Api.Principals.Groups.{create_group, update_group, delete_group}
use monok8s.Api.Grants.{max_reason_len, revoke_temporary_grant, update_grant_reason}
use monok8s.Api.Router.Schemas.{CreateGroupInput, accepts_create_group, accepts_update_group}

pub data Edit : Type 0 where
  group_create : CreateGroupInput → Edit
  group_update : Text → Patch → Edit
  group_delete : Text → Edit
  grant_revoke : Text → Edit
  grant_update_reason : Text → Option Text → Edit

-- What the procedures answer with; of a revocation, the workflow's ID.
pub data Reply : Type 0 where
  created : Group → Reply
  updated : Option Group → Reply
  removed : Option Text → Reply
  revoked : Text → Reply
  reworded : Option TemporaryGrant → Reply

abbrev pub fits_reason : Option Text → Bool
fits_reason none = true
fits_reason (some reason) = leb (length reason) max_reason_len

module _ (is_uuid : Text → Bool) where
  -- CreateGroupSchema, UpdateGroupInputSchema, DeleteGroupInputSchema, RevokeTemporaryGrantSchema and
  -- UpdateGrantReasonInputSchema
  abbrev pub accepts_edit : Edit → Bool
  accepts_edit (group_create input) = accepts_create_group is_uuid input
  accepts_edit (group_update id patch) = accepts_update_group is_uuid id patch
  accepts_edit (group_delete id) = is_uuid id
  accepts_edit (grant_revoke grant_id) = is_uuid grant_id
  accepts_edit (grant_update_reason id reason) = is_uuid id && fits_reason reason

  module _ (env : Env) (db : PoolId) where
    pub resolve_edit : Text → Text → Edit → Exec Reply
    resolve_edit tenant_id actor (group_create input) = do
      group ← create_group env db tenant_id input.name input.parent_group_id
      pure (created group)
    resolve_edit tenant_id actor (group_update id patch) = do
      group ← update_group env db tenant_id id patch
      pure (updated group)
    resolve_edit tenant_id actor (group_delete id) = do
      gone ← delete_group env db tenant_id id
      pure (removed gone)
    resolve_edit tenant_id actor (grant_revoke grant_id) = do
      workflow_id ← revoke_temporary_grant env tenant_id actor grant_id
      pure (revoked workflow_id)
    resolve_edit tenant_id actor (grant_update_reason id reason) = do
      grant ← update_grant_reason env db tenant_id id reason
      pure (reworded grant)

    -- A refused input is a BAD_REQUEST.
    pub edit : Text → Text → Edit → Exec Reply
    edit tenant_id actor e =
        if accepts_edit e then resolve_edit tenant_id actor e else raise (trpc_error bad_request [])
