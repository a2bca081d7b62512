-- ===== src/Auth/Roles.antt =====
-- The string unions of packages/auth/src/spicedb.ts, and the words that they stand for.
use monok8s.Prelude.{String}

pub data TenantRole : Type 0 where
  owner admin member viewer billing_manager : TenantRole

abbrev pub role_name : TenantRole → String
role_name TenantRole.owner = "owner"
role_name TenantRole.admin = "admin"
role_name TenantRole.member = "member"
role_name TenantRole.viewer = "viewer"
role_name TenantRole.billing_manager = "billing_manager"

-- Exclude<TenantRole, "owner">
pub data ServiceAccountRole : Type 0 where
  admin member viewer billing_manager : ServiceAccountRole

abbrev pub as_role : ServiceAccountRole → TenantRole
as_role ServiceAccountRole.admin = TenantRole.admin
as_role ServiceAccountRole.member = TenantRole.member
as_role ServiceAccountRole.viewer = TenantRole.viewer
as_role ServiceAccountRole.billing_manager = TenantRole.billing_manager

pub data TenantPermission : Type 0 where
  read write manage_members manage_billing manage_settings delete transfer_ownership :
      TenantPermission

abbrev pub permission_name : TenantPermission → String
permission_name TenantPermission.read = "read"
permission_name TenantPermission.write = "write"
permission_name TenantPermission.manage_members = "manage_members"
permission_name TenantPermission.manage_billing = "manage_billing"
permission_name TenantPermission.manage_settings = "manage_settings"
permission_name TenantPermission.delete = "delete"
permission_name TenantPermission.transfer_ownership = "transfer_ownership"

pub data UserPermission : Type 0 where
  update_profile request_erasure delete : UserPermission

abbrev pub user_permission_name : UserPermission → String
user_permission_name UserPermission.update_profile = "update_profile"
user_permission_name UserPermission.request_erasure = "request_erasure"
user_permission_name UserPermission.delete = "delete"

pub data InstallationPermission : Type 0 where
  report view revoke : InstallationPermission

abbrev pub installation_permission_name : InstallationPermission → String
installation_permission_name report = "report"
installation_permission_name view = "view"
installation_permission_name revoke = "revoke"

-- "user" | "service_account"
pub data PrincipalType : Type 0 where
  user service_account : PrincipalType

abbrev pub principal_type_name : PrincipalType → String
principal_type_name user = "user"
principal_type_name service_account = "service_account"
