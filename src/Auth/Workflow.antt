-- ===== src/Auth/Workflow.antt =====
-- packages/auth/src/spicedb.ts: `canOnWorkflow`, which reads the owning tenant off a workflow ID.
pub mod Uuid
pub mod Parsing
use monok8s.Prelude.{
  ℕ, zero, suc, Bool, false, ◌&&◌, ◌||◌, Option, none, some, List, [], ◌∷◌, ◌++◌, Text, is_blank,
  leb, nat_eq, if◌then◌else◌,
}
use monok8s.Services.{Env}
use monok8s.Services.Exec.{Exec, pure}
use monok8s.Auth.Roles.{TenantPermission}
use monok8s.Auth.Spice.{can_on_tenant}
use Uuid.{is_hex, dash}

infixl 5 ◌>>=◌
abbrev ◌>>=◌ {ℓ κ} : {A : Type ℓ} {B : Type κ} → Option A → (A → Option B) → Option B
none >>= f = none
some a >>= f = f a

-- `t`, in either case, for its code and the code of `T`.
letter : ℕ → ℕ → Text → Option Text
letter lower upper [] = none
letter lower upper (c ∷ s) = if nat_eq c lower || nat_eq c upper then some s else none

hyphen : Text → Option Text
hyphen [] = none
hyphen (c ∷ s) = if nat_eq c dash then some s else none

-- `[0-9a-f]{n}`: the digits, and the rest.
hex_run : ℕ → Text → Option (Text × Text)
hex_run zero s = some ([], s)
hex_run (suc n) [] = none
hex_run (suc n) (c ∷ s) =
    if is_hex c then (do (run, rest) ← hex_run n s; some (c ∷ run, rest)) else none

-- `/^tnt-([0-9a-f]{8}-[0-9a-f]{4}-[0-9a-f]{4}-[0-9a-f]{4}-[0-9a-f]{12})-/i`: its first group, and what
-- follows the match.
unfoldable pub tenant_prefix : Text → Option (Text × Text)
unfolding letter hyphen hex_run
tenant_prefix s = do
  s ← letter b't' b'T' s
  s ← letter b'n' b'N' s
  s ← letter b't' b'T' s
  s ← hyphen s
  (a, s) ← hex_run 8 s
  s ← hyphen s
  (b, s) ← hex_run 4 s
  s ← hyphen s
  (c, s) ← hex_run 4 s
  s ← hyphen s
  (d, s) ← hex_run 4 s
  s ← hyphen s
  (e, s) ← hex_run 12 s
  s ← hyphen s
  some (a ++ (dash ∷ b ++ (dash ∷ c ++ (dash ∷ d ++ (dash ∷ e)))), s)

unfoldable pub parse_tenant_from_workflow_id : Text → Option Text
parse_tenant_from_workflow_id s = do (tenant_id, rest) ← tenant_prefix s; some tenant_id

module _ (env : Env) where
  -- The one workflow permission is "read".
  delegate : Text → Option Text → Option Text → Exec Bool
  delegate user_id none zed_token = pure false
  delegate user_id (some tenant_id) zed_token =
      can_on_tenant env user_id TenantPermission.read tenant_id zed_token none

  unfoldable pub can_on_workflow : Text → Text → Option Text → Exec Bool
  unfolding delegate
  can_on_workflow user_id workflow_id zed_token =
      delegate user_id (parse_tenant_from_workflow_id workflow_id) zed_token
