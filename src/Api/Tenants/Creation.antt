-- ===== src/Api/Tenants/Creation.antt =====
-- What the creation of a tenant leaves behind.
use monok8s.Prelude.{or_else, ◌≡◌, refl, none, some, List, [], ◌∷◌, ◌++◌, Text, lit, false}
use monok8s.Services.{
  Env, PoolId, Tenant, Trace, Result, ok, throw, CheckRequest, Permissionship, check_permission,
  has_permission, StartRequest, start, query, Query, text, random_uuid,
}
use monok8s.Services.Exec.{continue, pure}
use monok8s.Auth.Spice.{obj, subj, fresh_as, is_held, check, can_on_system}
use monok8s.Auth.Workflow.{parse_tenant_from_workflow_id}
use monok8s.Auth.Workflow.Uuid.{IsUuid}
use monok8s.Auth.Workflow.Parsing.{parse-workflow_id}
use monok8s.Api.Workflows.{onboarding}
use monok8s.Db.Ask.{nullable}
use monok8s.Db.Tenants
use monok8s.Api.Tenants.{
  CreateTenantInput, CreateTenantResult, may_not_create, provision, create_tenant,
}

abbrev pub system_request : Text → CheckRequest
system_request actor = record {
  resource = obj "system" (lit "monok8s");
  permission = "create_tenants";
  subject = subj (obj "user" actor) none;
  consistency = fresh_as none;
  context = none;
}

-- The query that inserts the row.
abbrev pub insert_query : PoolId → CreateTenantInput → Query
insert_query db input = record {
  pool = db;
  sql = lit "INSERT INTO tenants (slug, plan) VALUES ($1, COALESCE($2, 'starter')) RETURNING *";
  params = text input.slug ∷ nullable input.plan ∷ [];
}

abbrev pub onboard_request : CreateTenantInput → Text → Text → StartRequest
onboard_request input id op_id =
    onboarding "OnboardTenantWorkflow" (lit "tnt-" ++ (id ++ (lit "-onboard-" ++ op_id))) (
      ("TenantID", id)
      ∷ ("Email", input.owner_email)
      ∷ ("Plan", or_else input.plan (lit "starter"))
      ∷ [])

abbrev pub answer : Text → Text → Result (Unit {0}) → Result CreateTenantResult
answer id op_id (ok _) =
    ok (record { tenant_id = id; workflow_id = lit "tnt-" ++ (id ++ (lit "-onboard-" ++ op_id)) })
answer id op_id (throw e) = throw e

answered :
    (id op_id : Text) (r : Result (Unit {0})) (h : Trace)
    → continue
        (r, h)
        (λ _. pure (record {
          tenant_id = id;
          workflow_id = lit "tnt-" ++ (id ++ (lit "-onboard-" ++ op_id));
        }))
      ≡ (answer id op_id r, h)
answered id op_id (ok _) h = refl
answered id op_id (throw e) h = refl

onboard-parsed :
    (t op_id : Text)
    → IsUuid t
    → parse_tenant_from_workflow_id (lit "tnt-" ++ (t ++ (lit "-onboard-" ++ op_id))) ≡ some t
unfolding lit
onboard-parsed t op_id u = parse-workflow_id t (lit "onboard-" ++ op_id) u

module _ (env : Env) (db : PoolId) (actor : Text) (input : CreateTenantInput) where
  -- An actor for whom SpiceDB does not answer "has permission" is refused, and no call follows the
  -- check: no row is inserted and no workflow started.
  pub create_tenant-refused :
      (p : Permissionship) (h : Trace)
      → env.on_check h (system_request actor) ≡ ok p
      → is_held p ≡ false
      → create_tenant env db actor input h
        ≡ (throw may_not_create, check_permission (system_request actor) ∷ h)
  unfolding create_tenant can_on_system check
  create_tenant-refused p h e f = rw (e, f) refl

  abbrev pub asked : Trace → Trace
  asked h = query (insert_query db input) ∷ check_permission (system_request actor) ∷ h

  -- A permitted actor whose row is inserted: exactly one workflow is asked for, after the row, under an
  -- ID that is parsed back to the new row's tenant, which is a UUID; the answer carries that
  -- tenant and ID, or the failure of Temporal, which leaves the row without a workflow.
  pub create_tenant-starts :
      (row : Tenant) (rows : List Tenant) (h : Trace)
      → env.on_check h (system_request actor) ≡ ok has_permission
      → env.on_query_tenants (check_permission (system_request actor) ∷ h) (insert_query db input)
        ≡ ok (row ∷ rows)
      → IsUuid row.id
      → let op_id = env.on_uuid (asked h) in
        let req = onboard_request input row.id op_id in
        (create_tenant env db actor input h ≡ (
          answer row.id op_id (env.on_start (random_uuid ∷ asked h) req),
          start req ∷ random_uuid ∷ asked h,
        ))
        × (parse_tenant_from_workflow_id req.workflow_id ≡ some row.id)
  unfolding create_tenant provision can_on_system check Tenants.create
  create_tenant-starts row rows h c q u =
      (rw (c, q) (answered row.id _ _ _), onboard-parsed row.id _ u)
