-- ===== src/Api/Tenants/Requests.antt =====
-- apps/api/src/routers/tenants.ts: the inputs, and the two procedures after their guards. zod's tests of
-- e-mail addresses and UUIDs are arguments; `.strict()` is not modelled; `invalid`
-- is what tRPC throws for an input that is refused.
use monok8s.Prelude.{
  ℕ, Bool, true, ◌&&◌, ◌||◌, Option, none, some, Text, lit, ◌==◌, all, leb, length, nat_eq,
  if◌then◌else◌,
}
use monok8s.Services.{Env, PoolId, Tenant, Thrown}
use monok8s.Services.Exec.{Exec, raise}
use monok8s.Api.Tenants.{CreateTenantInput, CreateTenantResult, create_tenant, ping_tenant}

-- `[a-z0-9-]`
abbrev pub in_slug : ℕ → Bool
in_slug c = (leb b'a' c && leb c b'z') || ((leb b'0' c && leb c b'9') || nat_eq c b'-')

abbrev pub accepts_slug : Text → Bool
accepts_slug slug = leb 3 (length slug) && (leb (length slug) 64 && all in_slug slug)

abbrev pub accepts_plan : Option Text → Bool
accepts_plan none = true
accepts_plan (some plan) = plan == lit "starter" || (plan == lit "pro" || plan == lit "enterprise")

-- CreateTenantInputSchema
unfoldable pub accepts_create : (Text → Bool) → CreateTenantInput → Bool
accepts_create is_email input =
    accepts_slug input.slug && (accepts_plan input.plan && is_email input.owner_email)

module _ (env : Env) (db : PoolId) (invalid : Thrown) where
  unfoldable pub create : (Text → Bool) → Text → CreateTenantInput → Exec CreateTenantResult
  create is_email user_id input =
      if accepts_create is_email input then create_tenant env db user_id input else raise invalid

  unfoldable pub ping : (Text → Bool) → Text → Exec (Option Tenant)
  ping is_uuid id = if is_uuid id then ping_tenant env db id else raise invalid
