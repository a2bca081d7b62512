-- ===== src/Frontend/Principals.antt =====
-- frontend/src/components/PrincipalAdmin.tsx: the validators of its forms and its texts. Its tabs, with the
-- handlers of frontend/src/routes/Principals.tsx, are the children.
pub mod Handlers
pub mod Groups
pub mod Roles
pub mod Users
pub mod Forms
use monok8s.Prelude.{
  ℕ, zero, suc, ◌-◌, ◌/◌, Bool, true, false, not, ◌&&◌, Option, none, some, List, [], ◌∷◌, ◌++◌,
  Text, lit, ◌==◌, is_blank, leb, length, ltb, nat_eq, trim, if◌then◌else◌,
}
use monok8s.Services.{CreatedAt, date, printed}
use monok8s.Auth.Roles.{TenantRole, PrincipalType, user, service_account}
use monok8s.Auth.Workflow.Uuid.{is_hex, dash}
use monok8s.Db.Ask.{decimal}
use monok8s.Api.Principals.Roles.{Principal}
use monok8s.Api.Router.{same_role}
use monok8s.Api.Router.Schemas.{CreateGroupInput}

-- `{ ok: true, value }` or `{ ok: false, error }`
pub data Validated {ℓ} (A : Type ℓ) : Type ℓ where
  valid : A → Validated A
  invalid : Text → Validated A

-- UUID_RE: what follows `n` hexadecimal digits, and a hyphen.
abbrev pub after_hex : ℕ → Option Text → Option Text
after_hex zero o = o
after_hex (suc n) none = none
after_hex (suc n) (some []) = none
after_hex (suc n) (some (c ∷ s)) =
    let rest = after_hex n (some s) in if is_hex c then rest else none

abbrev pub after_hyphen : Option Text → Option Text
after_hyphen none = none
after_hyphen (some []) = none
after_hyphen (some (c ∷ s)) = if nat_eq c dash then some s else none

abbrev pub at_end : Option Text → Bool
at_end none = false
at_end (some s) = is_blank s

unfoldable pub matches_uuid : Text → Bool
matches_uuid s = at_end (
    after_hex 12 (
      after_hyphen (
        after_hex 4 (
          after_hyphen
            (after_hex 4 (after_hyphen (after_hex 4 (after_hyphen (after_hex 8 (some s))))))))))

-- A parent that is blank is absent.
abbrev pub with_parent : Text → Text → Validated CreateGroupInput
with_parent name parent =
    if not (is_blank parent) && not (matches_uuid parent)
    then invalid (lit "Parent group ID must be a UUID (or empty)")
    else valid (record {
      name = name;
      parent_group_id = if is_blank parent then none else some (some parent);
    })

unfoldable pub validate_group_form : Text → Text → Validated CreateGroupInput
validate_group_form raw_name raw_parent =
    let name = trim raw_name in
    if ltb (length name) 1
    then invalid (lit "Name is required")
    else if ltb 128 (length name)
    then invalid (lit "Name must be ≤128 characters")
    else with_parent name (trim raw_parent)

unfoldable pub validate_member_user_id : Text → Validated Text
validate_member_user_id raw =
    let id = trim raw in
    if is_blank id
    then invalid (lit "User ID is required")
    else if not (matches_uuid id)
    then invalid (lit "User ID must be a UUID")
    else valid id

abbrev pub as_type : Text → Option PrincipalType
as_type raw =
    if raw == lit "user"
    then some user
    else if raw == lit "service_account"
    then some service_account
    else none

abbrev pub with_type : Text → Option PrincipalType → Validated Principal
with_type id none = invalid (lit "Principal type must be \"user\" or \"service_account\"")
with_type id (some type) = valid (record { id = id; type = type })

unfoldable pub validate_roles_form : Text → Text → Validated Principal
validate_roles_form raw_id raw_type =
    let id = trim raw_id in
    if is_blank id
    then invalid (lit "Principal ID is required")
    else if not (matches_uuid id)
    then invalid (lit "Principal ID must be a UUID")
    else with_type id (as_type raw_type)

unfoldable pub validate_change_role_form :
    TenantRole → TenantRole → Validated (TenantRole × TenantRole)
validate_change_role_form old_role new_role =
    if same_role old_role new_role
    then invalid (lit "oldRole and newRole must differ")
    else valid (old_role, new_role)

-- `toISOString` is an argument.
abbrev pub format_created_at : (ℕ → Text) → CreatedAt → Text
format_created_at to_iso (date ms) = to_iso ms
format_created_at to_iso (printed t) = t

-- Times in milliseconds; the difference of an event that lies ahead is 0.
abbrev pub age_of : ℕ → Text
age_of seconds =
    if ltb seconds 60
    then decimal seconds ++ lit "s ago"
    else if ltb (seconds / 60) 60
    then decimal (seconds / 60) ++ lit "m ago"
    else decimal (seconds / 60 / 60) ++ lit "h ago"

unfoldable pub format_live_age : Option ℕ → ℕ → Text
format_live_age none now = lit "Connecting…"
format_live_age (some last_event_at) now = age_of ((now - last_event_at) / 1000)
