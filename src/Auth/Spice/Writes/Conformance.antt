-- ===== src/Auth/Spice/Writes/Conformance.antt =====
-- The writes of spicedb.ts against schema.zed: SpiceDB refuses a touched relationship whose relation
-- does not list the subject's type.
use monok8s.Prelude.{◌≡◌, refl, Bool, true, false, List, all}
use monok8s.Services.{op_touch, op_delete, Update, Result, ok, throw}
use monok8s.Auth.Roles.{TenantRole, ServiceAccountRole, user, service_account}
use monok8s.Auth.Schema.{accepts}
use monok8s.Auth.Spice.Writes.{
  Write, member_write, grant_write, group_write, account_write, platform_write, updates,
  MemberWrite, member_joined, member_role_changed, member_updates, GrantWrite, temporary_grant,
  grant_updates, GroupWrite, group_role_assigned, group_updates, AccountWrite,
  service_account_created, service_account_role_changed, account_updates, PlatformWrite,
  platform_admin_changed, platform_updates,
}

-- A deletion is not held to the schema; a touch is.
abbrev touch_accepted : Update → Bool
touch_accepted u = elim u.operation [ op_touch ↦ accepts u.relationship | op_delete ↦ true ]

-- The schema accepts all that the call sends.
abbrev pub is_accepted : Result (List Update) → Bool
is_accepted (ok us) = all touch_accepted us
is_accepted (throw e) = true

-- The one kind of call that the schema turns down: a grant that expires, of another role than admin.
abbrev pub is_grantable : Write → Bool
is_grantable (grant_write (temporary_grant t id type ServiceAccountRole.admin expiry)) = true
is_grantable (grant_write (temporary_grant t id type role expiry)) = false
is_grantable w = true

members : (w : MemberWrite) → all touch_accepted (member_updates w) ≡ true
unfolding member_updates accepts
members (member_joined t u TenantRole.owner) = refl
members (member_joined t u TenantRole.admin) = refl
members (member_joined t u TenantRole.member) = refl
members (member_joined t u TenantRole.viewer) = refl
members (member_joined t u TenantRole.billing_manager) = refl
members (member_role_changed t u old_role TenantRole.owner) = refl
members (member_role_changed t u old_role TenantRole.admin) = refl
members (member_role_changed t u old_role TenantRole.member) = refl
members (member_role_changed t u old_role TenantRole.viewer) = refl
members (member_role_changed t u old_role TenantRole.billing_manager) = refl
members _ = refl

grants : (w : GrantWrite) → all touch_accepted (grant_updates w) ≡ is_grantable (grant_write w)
unfolding grant_updates accepts
grants (temporary_grant t id user ServiceAccountRole.admin expiry) = refl
grants (temporary_grant t id user ServiceAccountRole.member expiry) = refl
grants (temporary_grant t id user ServiceAccountRole.viewer expiry) = refl
grants (temporary_grant t id user ServiceAccountRole.billing_manager expiry) = refl
grants (temporary_grant t id service_account ServiceAccountRole.admin expiry) = refl
grants (temporary_grant t id service_account ServiceAccountRole.member expiry) = refl
grants (temporary_grant t id service_account ServiceAccountRole.viewer expiry) = refl
grants (temporary_grant t id service_account ServiceAccountRole.billing_manager expiry) = refl
grants _ = refl

groups : (w : GroupWrite) → is_accepted (group_updates w) ≡ true
unfolding group_updates accepts
groups (group_role_assigned t g TenantRole.owner) = refl
groups (group_role_assigned t g TenantRole.admin) = refl
groups (group_role_assigned t g TenantRole.member) = refl
groups (group_role_assigned t g TenantRole.viewer) = refl
groups (group_role_assigned t g TenantRole.billing_manager) = refl
groups _ = refl

accounts : (w : AccountWrite) → all touch_accepted (account_updates w) ≡ true
unfolding account_updates accepts
accounts (service_account_created sa t ServiceAccountRole.admin) = refl
accounts (service_account_created sa t ServiceAccountRole.member) = refl
accounts (service_account_created sa t ServiceAccountRole.viewer) = refl
accounts (service_account_created sa t ServiceAccountRole.billing_manager) = refl
accounts (service_account_role_changed t sa old_role ServiceAccountRole.admin) = refl
accounts (service_account_role_changed t sa old_role ServiceAccountRole.member) = refl
accounts (service_account_role_changed t sa old_role ServiceAccountRole.viewer) = refl
accounts (service_account_role_changed t sa old_role ServiceAccountRole.billing_manager) = refl
accounts _ = refl

platforms : (w : PlatformWrite) → all touch_accepted (platform_updates w) ≡ true
unfolding platform_updates accepts
platforms (platform_admin_changed u op_touch) = refl
platforms (platform_admin_changed u op_delete) = refl
platforms _ = refl

-- For every call of a write function: the schema accepts the touched relationships, unless the call
-- is a temporary grant of a role other than admin, which it does not accept.
pub updates-is_accepted : (w : Write) → is_accepted (updates w) ≡ is_grantable w
updates-is_accepted (member_write w) = members w
updates-is_accepted (grant_write w) = grants w
updates-is_accepted (group_write w) = groups w
updates-is_accepted (account_write w) = accounts w
updates-is_accepted (platform_write w) = platforms w
