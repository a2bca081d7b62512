-- ===== src/Api/Installations/Registration.antt =====
-- The workflows of an installation: who starts them, and under which IDs they are found again.
use monok8s.Prelude.{
  ◌≡◌, refl, sym, ap, ◌∙◌, ◌⊎◌, inl, inr, Bool, true, false, Option, none, some, List, [], ◌∷◌,
  ◌++◌, arith, Text, lit, if◌then◌else◌,
}
use monok8s.Services.{
  Env, Param, text, Trace, Result, ok, throw, StartRequest, start, random_uuid, trpc_error,
  forbidden,
}
use monok8s.Services.Exec.{Exec, continue, pure, raise, ◌>>=◌}
use monok8s.Services.Traces.{starts, IsQuiet, IsQuiet-bind, IsQuiet-perform, IsQuiet-pure}
use monok8s.Auth.Roles.{InstallationPermission}
use monok8s.Auth.Spice.{can_on_installation}
use monok8s.Auth.Zitadel.{VerifiedUser}
use monok8s.Auth.Workflow.{parse_tenant_from_workflow_id}
use monok8s.Auth.Workflow.Uuid.{IsUuid}
use monok8s.Auth.Workflow.Parsing.{parse-workflow_id}
use monok8s.Api.Workflows.{onboarding}
use monok8s.Api.Installations.{
  Database, Registered, register, activate, revoke, start_revocation, register_id, revoke_id,
}

register_id-tenant :
    (t id : Text) → IsUuid t → parse_tenant_from_workflow_id (register_id t id) ≡ some t
unfolding lit
register_id-tenant t id u = parse-workflow_id t (lit "install-register-" ++ id) u

revoke_id-tenant :
    (t id : Text) → IsUuid t → parse_tenant_from_workflow_id (revoke_id t id) ≡ some t
unfolding lit
revoke_id-tenant t id u = parse-workflow_id t (lit "install-revoke-" ++ id) u

returned :
    (r : Result (Unit {0})) (h : Trace) (reg reg' : Registered) (h1 : Trace)
    → continue (r, h) (λ _. pure reg) ≡ (ok reg', h1)
    → (reg ≡ reg') × (h ≡ h1)
returned (ok _) h reg reg' h1 e = (grind arith, grind arith)
returned (throw x) h reg reg' h1 e = absurd (grind arith)

module _ {Row : Type 0} (env : Env) (db : Database Row) where
  -- A registration that succeeds starts one workflow, which the members of the caller's tenant may
  -- follow; and activating the installation that it returns, as a user of that tenant and with any
  -- token, is waiting for the result of that workflow. The tenant's ID is a UUID.
  pub register-activate {ℓ} :
      {A : Type ℓ} (workflow_result : Text → Exec A) (user activator : VerifiedUser)
      (reg : Registered) (token : Text) (h h1 : Trace)
      → IsUuid user.tenant_id
      → activator.tenant_id ≡ user.tenant_id
      → register env db user h ≡ (ok reg, h1)
      → (r : StartRequest) × ((starts h1 ≡ r ∷ starts h)
          × ((parse_tenant_from_workflow_id r.workflow_id ≡ some user.tenant_id)
              × (activate env db workflow_result activator reg.installation_id token
                  ≡ workflow_result r.workflow_id)))
  unfolding register activate
  register-activate workflow_result user activator reg token h h1 u same e =
      let id = env.on_uuid h in
      let req : StartRequest =
        onboarding "InstallationRegistrationWorkflow" (register_id user.tenant_id id) (
          ("installationId", id)
          ∷ ("tenantId", user.tenant_id)
          ∷ ("bootstrapToken", env.on_uuid (random_uuid ∷ h))
          ∷ []) in
      let (made, trace) =
        returned (env.on_start (random_uuid ∷ random_uuid ∷ h) req)
          (start req ∷ random_uuid ∷ random_uuid ∷ h)
          (record {
            installation_id = id;
            bootstrap_token = env.on_uuid (random_uuid ∷ h);
            expires_in = lit "1 hour";
          })
          reg h1 e in
      (
        req,
        (ap starts (sym trace), (register_id-tenant user.tenant_id id u, rw (same, sym made) refl)),
      )

  IsQuiet-can_on_installation :
      (user_id id : Text) (permission : InstallationPermission)
      → IsQuiet (can_on_installation env user_id permission id none)
  unfolding can_on_installation
  IsQuiet-can_on_installation user_id id permission =
      IsQuiet-bind _ _ (IsQuiet-perform _ _ (λ h. refl)) (λ _. IsQuiet-pure _)

  -- One more workflow, of the tenant `t`.
  abbrev pub StartedFor : Text → List StartRequest → List StartRequest → Type 0
  StartedFor t old new =
      (r : StartRequest) × ((new ≡ r ∷ old)
        × (parse_tenant_from_workflow_id r.workflow_id ≡ some t))

  start_revocation-some :
      (id t : Text) (h : Trace)
      → IsUuid t
      → StartedFor t (starts h) (starts (start_revocation env db id (some t) h).1)
  start_revocation-some id t h u = (_, (refl, revoke_id-tenant t id u))

  -- What a revocation does to the workflows: nothing, or one more, of the tenant that owns the
  -- installation, for a caller that SpiceDB grants `revoke` on it.
  abbrev pub RevokedBy : VerifiedUser → Text → Trace → List StartRequest → Type 0
  RevokedBy user id h new =
      let (granted, h1) =
        can_on_installation env user.user_id InstallationPermission.revoke id none h in
      (new ≡ starts h)
      ⊎ ((granted ≡ ok true)
          × ((t : Text) × (((db.query_tenant
                    (lit "SELECT tenant_id FROM installations WHERE id = $1") (text id ∷ []) h1).0
                  ≡ ok (some t))
                × StartedFor t (starts h) new)))

  module _ (quiet : (sql : Text) (params : List Param) → IsQuiet (db.query_tenant sql params))
      (uuids : (sql : Text) (params : List Param) (h : Trace) (t : Text)
        → (db.query_tenant sql params h).0 ≡ ok (some t)
        → IsUuid t) where
    looked_up :
        (V : Text → Type 0) (id : Text) (r : Result (Option Text)) (h : Trace)
        → ((t : Text) → r ≡ ok (some t) → IsUuid t × V t)
        → (starts (continue (r, h) (start_revocation env db id)).1 ≡ starts h)
          ⊎ ((t : Text) × (V t
                × StartedFor t
                    (starts h)
                    (starts (continue (r, h) (start_revocation env db id)).1)))
    looked_up V id (throw x) h v = inl refl
    looked_up V id (ok none) h v = inl refl
    looked_up V id (ok (some t)) h v =
        inr (t, ((v t refl).1, start_revocation-some id t h (v t refl).0))

    -- The rest of a revocation, given the answer of the check.
    checked :
        (user : VerifiedUser) (id : Text) (r : Result Bool) (h h1 : Trace)
        → starts h1 ≡ starts h
        → let look =
            db.query_tenant
              (lit "SELECT tenant_id FROM installations WHERE id = $1")
              (text id ∷ []) in
          let new =
            starts
              (continue
                (r, h1)
                (λ granted.
                  if granted
                  then look >>= start_revocation env db id
                  else raise (trpc_error forbidden (lit "FORBIDDEN")))).1 in
          (new ≡ starts h)
          ⊎ ((r ≡ ok true)
              × ((t : Text) × (((look h1).0 ≡ ok (some t)) × StartedFor t (starts h) new)))
    checked user id (throw x) h h1 e = inl e
    checked user id (ok false) h h1 e = inl e
    checked user id (ok true) h h1 e =
        let sql = lit "SELECT tenant_id FROM installations WHERE id = $1" in
        let params = text id ∷ [] in
        let found : Trace = (db.query_tenant sql params h1).1 in
        let old : starts found ≡ starts h = (quiet sql params).at h1 ∙ e in
        rw (sym old)
          (elim (looked_up (λ t. (db.query_tenant sql params h1).0 ≡ ok (some t)) id
            (db.query_tenant sql params h1).0 found (λ t q. (uuids sql params h1 t q, q))) [
              | inl same ↦ inl same
              | inr more ↦ inr (refl, more)
            ])

    -- A revocation starts at most one workflow: one of the tenant that owns the installation, as the
    -- database answers, and only for a caller that SpiceDB grants `revoke` on that installation. The
    -- tenants' IDs in the database are UUIDs.
    pub revoke-authorised :
        (user : VerifiedUser) (id : Text) (h : Trace)
        → RevokedBy user id h (starts (revoke env db user id h).1)
    unfolding revoke
    revoke-authorised user id h =
        let m = can_on_installation env user.user_id InstallationPermission.revoke id none in
        checked user id (m h).0 h (m h).1
          ((IsQuiet-can_on_installation user.user_id id InstallationPermission.revoke).at h)
