-- ===== src/Api/Audit.antt =====
-- apps/api/src/routers/audit.ts and handlers/audit.ts, after the procedures' guards. Of the schemas, the
-- lengths, the bound and the default are modelled; zod's tests of UUIDs and times are arguments.
pub mod Pages
use monok8s.Prelude.{
  ℕ, Bool, true, false, not, ◌&&◌, ◌||◌, Option, none, some, List, [], ◌∷◌, Text, lit, is_blank,
  leb, length, or_else, if◌then◌else◌,
}
use monok8s.Services.{
  AuditLog, PoolId, Query, Trace, Result, ok, throw, Thrown, trpc_error, bad_request, Env, clock,
}
use monok8s.Services.Exec.{Exec, pure, raise, perform, ◌>>=◌}
use monok8s.Db.Audit.{AuditListFilters}
use monok8s.Db.Audit

abbrev pub max_limit : ℕ
max_limit = 200

abbrev pub default_limit : ℕ
default_limit = 50

abbrev pub max_action_len : ℕ
max_action_len = 128

-- `Math.min(v, MAX_LIMIT)`
abbrev pub clamped : ℕ → ℕ
clamped v = if leb v max_limit then v else max_limit

-- A test of an optional field.
abbrev pub accepts {ℓ} : {A : Type ℓ} → Option A → (A → Bool) → Bool
accepts none test = true
accepts (some a) test = test a

-- The input of audit.list, before it is parsed; a limit is a whole number that is not negative.
pub record AuditListInput : Type 0 where
  pub action : Option Text
  pub principal_id : Option Text
  pub before : Option Text
  pub limit : Option ℕ

abbrev pub clamp_limit : Option ℕ → ℕ
clamp_limit none = default_limit
clamp_limit (some v) = clamped v

module _ (is_uuid is_datetime : Text → Bool) where
  abbrev pub is_valid : AuditListInput → Bool
  is_valid input =
      accepts input.action (λ a. not (is_blank a) && leb (length a) max_action_len)
      && (accepts input.principal_id is_uuid
          && (accepts input.before is_datetime && accepts input.limit (λ v. leb 1 v)))

  -- `AuditListInputSchema.parse`: none where the input is refused.
  unfoldable pub parse_audit_list : AuditListInput → Option AuditListFilters
  parse_audit_list input =
      if is_valid input
      then some (record {
        action = input.action;
        principal_id = input.principal_id;
        before = input.before;
        limit = some (clamp_limit input.limit);
      })
      else none

  abbrev pub invalid_input : Thrown
  invalid_input = trpc_error bad_request (lit "input validation failed")

  module _ {κ} {M : Type κ} (answer : Trace → Query → Result (List (AuditLog M))) where
    abbrev pub list_audit_events : PoolId → AuditListFilters → Exec (List (AuditLog M))
    list_audit_events db filters = Audit.list answer db filters

    abbrev pub listed : PoolId → Option AuditListFilters → Exec (List (AuditLog M))
    listed db none = raise invalid_input
    listed db (some filters) = list_audit_events db filters

    -- The procedure `audit.list`.
    unfoldable pub list : PoolId → AuditListInput → Exec (List (AuditLog M))
    list db input = listed db (parse_audit_list input)

-- PingResult, without `pong`.
pub record PingResult : Type 0 where
  pub tenant_id : Text
  pub note : Option Text
  pub at : Text

-- `pingAudit`, at the time of the clock.
unfoldable pub ping_audit : Env → Text → Option Text → Exec PingResult
ping_audit env tenant_id note = do
  now ← perform (λ h. ok (env.on_clock h)) clock
  pure (record { tenant_id = tenant_id; note = note; at = env.to_iso now })
