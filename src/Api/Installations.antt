-- ===== src/Api/Installations.antt =====
-- apps/api/src/routers/installations.ts, after the procedures' guards, with `ctx.user` as an argument.
-- `ctx.db` is whatever the context has under that name: its `query` and `queryOne` are the fields of
-- `Database`, since packages/db has no such methods. SHA-256 and `JSON.stringify` are arguments, and
-- a workflow's result, which Temporal holds.
pub mod Registration
use monok8s.Prelude.{
  ℕ, zero, suc, Bool, true, false, not, Option, none, some, List, [], ◌∷◌, ◌++◌, String, Text, lit,
  nat_eq, filter, length, map, if◌then◌else◌,
}
use monok8s.Prelude.Maps.{set}
use monok8s.Services.{
  Env, Param, null, text, HttpRequest, Thrown, Result, ok, throw, trpc_error, forbidden, not_found,
  signal, fetch, Trace,
}
use monok8s.Services.Exec.{Exec, pure, raise, perform, ◌>>=◌, ◌>>◌}
use monok8s.Auth.Roles.{InstallationPermission}
use monok8s.Auth.Spice.{can_on_installation}
use monok8s.Auth.Zitadel.{VerifiedUser}
use monok8s.Auth.Middleware.{attempt}
use monok8s.Api.Workflows.{new_id, start_workflow, onboarding}

-- The context's database: rows of any kind, rows' `tenant_id`, and statements without rows. Reading a
-- field of an absent row throws.
pub record Database (Row : Type 0) : Type 0 where
  pub query : Text → List Param → Exec (List Row)
  pub query_one : Text → List Param → Exec (Option Row)
  pub query_tenant : Text → List Param → Exec (Option Text)
  pub execute : Text → List Param → Exec (Unit {0})
  pub absent_row : Thrown

pub record Registered : Type 0 where
  pub installation_id : Text
  pub bootstrap_token : Text
  pub expires_in : Text

-- An alert of the webhook; its other fields are the JSON text `rest`.
pub record Alert : Type 0 where
  pub labels : List (Text × Text)
  pub rest : Text

abbrev pub register_id : Text → Text → Text
register_id tenant_id installation_id =
    lit "tnt-" ++ (tenant_id ++ (lit "-install-register-" ++ installation_id))

abbrev pub revoke_id : Text → Text → Text
revoke_id tenant_id installation_id =
    lit "tnt-" ++ (tenant_id ++ (lit "-install-revoke-" ++ installation_id))

-- `{ ...labels, key: value }`: a present key keeps its place.
abbrev pub with_label : Text → Text → List (Text × Text) → List (Text × Text)
with_label = set

-- `s.slice(0, n)`
abbrev pub take : ℕ → Text → Text
take zero s = []
take (suc n) [] = []
take (suc n) (c ∷ s) = c ∷ take n s

abbrev pub optional_text : Option Text → Param
optional_text none = null
optional_text (some t) = text t

module _ {Row : Type 0} (env : Env) (db : Database Row) where
  unfoldable pub register : VerifiedUser → Exec Registered
  register user = do
    installation_id ← new_id env
    bootstrap_token ← new_id env
    start_workflow env (
        onboarding "InstallationRegistrationWorkflow" (register_id user.tenant_id installation_id) (
          ("installationId", installation_id)
          ∷ ("tenantId", user.tenant_id)
          ∷ ("bootstrapToken", bootstrap_token)
          ∷ []))
    pure (record {
      installation_id = installation_id;
      bootstrap_token = bootstrap_token;
      expires_in = lit "1 hour";
    })

  -- `handle.result()`: the credentials, as Temporal returns them.
  unfoldable pub activate {ℓ} : {A : Type ℓ} → (Text → Exec A) → VerifiedUser → Text → Text → Exec A
  activate workflow_result user installation_id bootstrap_token =
      workflow_result (register_id user.tenant_id installation_id)

  unfoldable pub list : VerifiedUser → Exec (List Row)
  list user =
      db.query
        (lit
          "SELECT id, name, description, status, heartbeat_status, last_heartbeat_at, host_cloud, host_region, model_b_version, cert_expires_at, api_key_prefix, created_at, updated_at FROM installations WHERE tenant_id = $1 AND status != 'revoked' ORDER BY created_at DESC")
        (text user.tenant_id ∷ [])

  -- The check that opens `get`, `revoke` and `rotateKey`.
  abbrev pub allowed {ℓ} :
      {A : Type ℓ} → VerifiedUser → InstallationPermission → Text → Exec A → Exec A
  allowed user permission installation_id next = do
    granted ← can_on_installation env user.user_id permission installation_id none
    if granted then next else raise (trpc_error forbidden (lit "FORBIDDEN"))

  unfoldable pub get : VerifiedUser → Text → Exec (Option Row)
  get user installation_id =
      allowed user InstallationPermission.view installation_id
        (db.query_one (lit "SELECT * FROM installations WHERE id = $1") (text installation_id ∷ []))

  abbrev pub start_revocation : Text → Option Text → Exec (Unit {0})
  start_revocation installation_id none = raise db.absent_row
  start_revocation installation_id (some tenant_id) = start_workflow env (
      onboarding "InstallationRevocationWorkflow" (revoke_id tenant_id installation_id)
        (("0", installation_id) ∷ ("1", tenant_id) ∷ []))

  unfoldable pub revoke : VerifiedUser → Text → Exec (Unit {0})
  revoke user installation_id = allowed user InstallationPermission.revoke installation_id (
      db.query_tenant (lit "SELECT tenant_id FROM installations WHERE id = $1")
        (text installation_id ∷ [])
      >>= start_revocation installation_id)

  abbrev pub store_key : (Text → Text) → Text → Text → Exec Text
  store_key sha256hex installation_id new_key =
      db.execute
        (lit
          "UPDATE installations SET api_key_hash = $1, api_key_prefix = $2, api_key_rotated_at = now(), updated_at = now() WHERE id = $3")
        (text (sha256hex new_key) ∷ text (take 10 new_key) ∷ text installation_id ∷ [])
      >> pure new_key

  unfoldable pub rotate_key : (Text → Text) → VerifiedUser → Text → Exec Text
  rotate_key sha256hex user installation_id =
      allowed user InstallationPermission.revoke installation_id (do
        id ← new_id env
        store_key sha256hex installation_id (lit "mk_" ++ filter (λ c. not (nat_eq c b'-')) id))

  -- The signal to the monitor may fail.
  abbrev pub signal_monitor : Text → Exec (Result (Unit {0}))
  signal_monitor installation_id =
      let workflow_id = lit "heartbeat-monitor-" ++ installation_id in
      attempt (
        perform (λ h. env.on_signal h workflow_id "heartbeat" [])
          (signal workflow_id "heartbeat" []))

  unfoldable pub heartbeat : Text → Option Text → Option Text → Exec Bool
  heartbeat installation_id k8s_version model_b_version = do
    db.execute
        (lit
          "UPDATE installations SET last_heartbeat_at = now(), heartbeat_status = 'healthy', k8s_version = COALESCE($2, k8s_version), model_b_version = COALESCE($3, model_b_version), updated_at = now() WHERE id = $1 AND status = 'active'")
        (text installation_id ∷ optional_text k8s_version ∷ optional_text model_b_version ∷ [])
    signalled ← signal_monitor installation_id
    pure true

  -- `postAlertmanagerAlert`, to the configured URL.
  abbrev pub post_alertmanager_alert : Text → Text → Exec (Unit {0})
  post_alertmanager_alert url body =
      let req : HttpRequest = record {
        url = url ++ lit "/api/v2/alerts";
        method = "POST";
        body = body;
      } in
      perform (λ h. env.on_fetch h req) (fetch req)

  abbrev pub labelled : Text → Text → Alert → Alert
  labelled installation_id tenant_id a = record {
    labels =
        with_label (lit "tenant_id") tenant_id
          (with_label (lit "installation_id") installation_id a.labels);
    rest = a.rest;
  }

  abbrev pub forward_to_alertmanager :
      (List Alert → Text) → Text → Text → Text → List Alert → Exec (Unit {0})
  forward_to_alertmanager stringify alertmanager_url installation_id tenant_id alerts =
      post_alertmanager_alert alertmanager_url
        (stringify (map (labelled installation_id tenant_id) alerts))

  abbrev pub route_alerts : (List Alert → Text) → Text → Text → List Alert → Option Text → Exec ℕ
  route_alerts stringify alertmanager_url installation_id alerts none =
      raise (trpc_error not_found (lit "NOT_FOUND"))
  route_alerts stringify alertmanager_url installation_id alerts (some tenant_id) =
      forward_to_alertmanager stringify alertmanager_url installation_id tenant_id alerts
      >> pure (length alerts)

  unfoldable pub ingest_alerts : (List Alert → Text) → Text → Text → List Alert → Exec ℕ
  ingest_alerts stringify alertmanager_url installation_id alerts =
      db.query_tenant
        (lit "SELECT tenant_id FROM installations WHERE id = $1 AND status = 'active'")
        (text installation_id ∷ [])
      >>= route_alerts stringify alertmanager_url installation_id alerts
