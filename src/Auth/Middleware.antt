-- ===== src/Auth/Middleware.antt =====
-- packages/auth/src/middleware.ts: the procedures that guard every router. A tRPC middleware is code
-- around `next`, so `next`, the verifier, the pool factory and the audit emitter, which the
-- source keeps in variables with setters, are arguments.
pub mod Authorised
pub mod Required
use monok8s.Prelude.{
  Bool, true, false, not, ◌&&◌, ◌||◌, Option, none, some, [], ◌++◌, Text, String, lit, is_blank,
  is_some, or_else, if◌then◌else◌,
}
use monok8s.Services.{
  Env, PoolId, Thrown, trpc_error, error, other, unauthorized, forbidden, internal_server_error,
  Result, ok, throw, Trace, clock,
}
use monok8s.Services.Exec.{Exec, pure, raise, perform, continue, ◌>>=◌, ◌>>◌}
use monok8s.Auth.Roles.{
  TenantPermission, permission_name, InstallationPermission, installation_permission_name,
}
use monok8s.Auth.Spice.{can_on_tenant, can_on_installation, is_platform_admin}
use monok8s.Auth.Zitadel.{VerifiedUser, has_mfa}

-- `try { … } catch (e) { … }`: the outcome as a value.
abbrev pub attempt {ℓ} : {A : Type ℓ} → Exec A → Exec (Result A)
attempt m h = let (r, h') = m h in (ok r, h')

-- The message of what the verifier threw.
abbrev pub message_of : Thrown → Text
message_of (trpc_error _ m) = m
message_of (error m) = m
message_of (other _) = lit "invalid token"

abbrev pub verified : Result VerifiedUser → Exec VerifiedUser
verified (ok user) = pure user
verified (throw e) = raise (trpc_error unauthorized (message_of e))

-- An absent token is the empty one.
unfoldable pub auth_middleware {ℓ} :
    {A : Type ℓ} → (Text → Exec VerifiedUser) → Text → (VerifiedUser → Exec A) → Exec A
auth_middleware verifier token next =
    if is_blank token
    then raise (trpc_error unauthorized (lit "missing bearer token"))
    else (do r ← attempt (verifier token); user ← verified r; next user)

-- TenantProcedureOptions and RequirePermissionOptions, and the two shapes of the argument.
pub record Options : Type 0 where
  pub require_mfa : Option Bool
  pub zed_token : Option Text

pub data OptionsArg : Type 0 where
  not_given : OptionsArg
  a_token : Text → OptionsArg
  options : Options → OptionsArg

abbrev pub as_options : OptionsArg → Options
as_options not_given = record { require_mfa = none; zed_token = none }
as_options (a_token t) = record { require_mfa = none; zed_token = some t }
as_options (options o) = o

abbrev pub needs_mfa : Options → VerifiedUser → Bool
needs_mfa opts user = or_else opts.require_mfa false && not (has_mfa user)

abbrev pub mfa_required : Thrown
mfa_required = trpc_error unauthorized (lit "MFA required")

abbrev pub missing_permission : Text → Text → Thrown
missing_permission permission on =
    trpc_error forbidden (lit "missing permission: " ++ (permission ++ (lit " on " ++ on)))

-- The two tests, given how the permission is checked.
unfoldable pub permit {ℓ} :
    {A : Type ℓ} → Options → VerifiedUser → Exec Bool → Thrown → Exec A → Exec A
permit opts user check refusal next =
    if needs_mfa opts user
    then raise mfa_required
    else (do allowed ← check; if allowed then next else raise refusal)

module _ {ℓ} {A : Type ℓ} (env : Env) where
  -- The middleware that `tenantProcedure` adds to `authedProcedure`.
  unfoldable pub tenant_middleware :
      (Text → Exec PoolId)
      → TenantPermission
      → OptionsArg
      → VerifiedUser
      → (PoolId → Exec A)
      → Exec A
  tenant_middleware pool_factory permission arg user next =
      let opts = as_options arg in
      permit opts user
        (can_on_tenant env user.user_id permission user.tenant_id opts.zed_token none)
        (missing_permission (lit (permission_name permission)) (lit "tenant " ++ user.tenant_id))
        (pool_factory user.tenant_id >>= next)

  unfoldable pub tenant_procedure :
      (Text → Exec VerifiedUser)
      → (Text → Exec PoolId)
      → TenantPermission
      → OptionsArg
      → Text
      → (VerifiedUser → PoolId → Exec A)
      → Exec A
  tenant_procedure verifier pool_factory permission arg token next =
      auth_middleware verifier token
        (λ user. tenant_middleware pool_factory permission arg user (next user))

-- PermissionResource
pub data PermissionResource : Type 0 where
  tenant : Text → TenantPermission → PermissionResource
  installation : Text → InstallationPermission → PermissionResource
  platform system : Text → PermissionResource

abbrev pub not_wired : Thrown
not_wired = trpc_error forbidden (
    lit
      "system-resource permission checks not yet wired (use packages/auth's CanOnSystem in #145 Go path)")

abbrev pub no_user : Thrown
no_user =
    trpc_error internal_server_error (lit "requirePermission used without authedProcedure upstream")

module _ {ℓ} {A : Type ℓ} (env : Env) where
  abbrev pub require_for : PermissionResource → OptionsArg → VerifiedUser → Exec A → Exec A
  require_for (tenant id permission) arg u next =
      let opts = as_options arg in
      permit opts u (can_on_tenant env u.user_id permission id opts.zed_token none)
        (missing_permission (lit (permission_name permission)) (lit "tenant:" ++ id)) next
  require_for (installation id permission) arg u next =
      let opts = as_options arg in
      permit opts u (can_on_installation env u.user_id permission id opts.zed_token)
        (missing_permission (lit (installation_permission_name permission))
          (lit "installation:" ++ id))
        next
  require_for (platform id) arg u next =
      permit (as_options arg) u (is_platform_admin env u.user_id)
        (missing_permission (lit "administrate") (lit "platform:" ++ id)) next
  require_for (system id) arg u next =
      permit (as_options arg) u (raise not_wired)
        (missing_permission (lit "create_tenants") (lit "system:" ++ id)) next

  -- `ctx.user` may be absent.
  unfoldable pub require_permission :
      PermissionResource → OptionsArg → Option VerifiedUser → Exec A → Exec A
  require_permission resource arg none next = raise no_user
  require_permission resource arg (some u) next = require_for resource arg u next
