-- ===== src/Tests/Api.antt =====
-- apps/api: mutations, tenants, grants, groups, roles and audit entries.
use monok8s.Prelude.{◌≡◌, refl, ◌+◌, ◌*◌, none, some, [], ◌∷◌, ◌++◌, Text, lit}
use monok8s.Services.{ok, Trace, no_permission, Env, signal, StartRequest}
use monok8s.Auth.Audit.{AuditEnvelope, failed}
use monok8s.Services.Traces.{starts}
use monok8s.Auth.Roles.{user, ServiceAccountRole}
use monok8s.Db.Groups.{Patch}
use monok8s.Api.Router.Edits
use monok8s.Api.Tenants.{CreateTenantInput}
use monok8s.Api.Grants.{CreateInput, Created, create_temporary_grant, revoke_temporary_grant}
use monok8s.Api.Grants.Expiry.{signalled, revoke-create}
use monok8s.Fixtures.{acme, alice, bob, env}

abbrev grant_input : CreateInput
grant_input = record {
  subject_id = bob;
  subject_type = user;
  role = ServiceAccountRole.admin;
  duration_seconds = 3600;
  reason = none;
}

abbrev rename : Patch
rename = record { name = some (lit "ops"); parent_group_id = none }

-- The same servers, but nobody has a permission.
abbrev closed_env : Env
closed_env = record {
  on_check = λ h req. ok no_permission;
  on_lookup_resources = env.on_lookup_resources;
  on_lookup_subjects = env.on_lookup_subjects;
  on_write = env.on_write;
  on_start = env.on_start;
  on_signal = env.on_signal;
  on_fetch = env.on_fetch;
  on_query_tenants = env.on_query_tenants;
  on_query_users = env.on_query_users;
  on_query_groups = env.on_query_groups;
  on_query_grants = env.on_query_grants;
  on_query_ids = env.on_query_ids;
  on_insert = env.on_insert;
  on_publish = env.on_publish;
  on_uuid = env.on_uuid;
  on_clock = env.on_clock;
  to_iso = env.to_iso;
}

abbrev created : Created
created = record {
  grant_id = env.on_uuid [];
  expires_at = env.to_iso (1000 + 3600 * 1000);
  workflow_id = lit "tnt-" ++ (acme ++ (lit "-grant-" ++ env.on_uuid []));
}

abbrev after_grant : Trace
after_grant = (create_temporary_grant env acme alice grant_input []).1

revoke-create_example :
    (r : StartRequest) × ((starts after_grant ≡ r ∷ [])
      × ((r.workflow_id ≡ created.workflow_id)
          × (revoke_temporary_grant env acme bob (env.on_uuid []) after_grant
              ≡ (signalled r.workflow_id (ok tt), signal r.workflow_id "revoke" [] ∷ after_grant))))
unfolding create_temporary_grant
revoke-create_example = revoke-create env acme alice bob grant_input [] after_grant created refl

abbrev acme_input : CreateTenantInput
acme_input = record { slug = lit "acme"; plan = none; owner_email = lit "a@acme.test" }

abbrev envelope : AuditEnvelope Text
envelope = record {
  principal = alice;
  action = lit "tenant.update";
  target = record { kind = lit "tenant"; id = some acme };
  outcome = failed (lit "boom");
  metadata = none;
  timestamp = lit "1970-01-01T00:00:01.000Z";
}
