-- ===== src/Auth/Spice/Writes.antt =====
-- packages/auth/src/spicedb.ts: the relation writes. A constructor stands for a call of the exported
-- function of its name (`write` left off), and `updates` for the function's body up to the one
-- request that it sends.
pub mod Send
pub mod Conformance
pub mod Distinct
use monok8s.Prelude.{String, Option, none, some, List, [], ◌∷◌, Text, lit}
use monok8s.Services.{
  ObjectRef, Caveat, Relationship, Operation, op_touch, op_delete, Update, Result, ok, throw, error,
}
use monok8s.Auth.Roles.{
  TenantRole, role_name, ServiceAccountRole, as_role, PrincipalType, principal_type_name,
}
use monok8s.Auth.Spice.{obj, subj}

pub rel_update : Operation → ObjectRef → String → ObjectRef → Option String → Option Caveat → Update
rel_update op resource relation subject subject_relation caveat = record {
  operation = op;
  relationship = record {
    resource = resource;
    relation = relation;
    subject = subj subject subject_relation;
    optional_caveat = caveat;
  };
}

abbrev touch : ObjectRef → String → ObjectRef → Option String → Option Caveat → Update
touch = rel_update op_touch

abbrev del : ObjectRef → String → ObjectRef → Option String → Update
del resource relation subject subject_relation =
    rel_update op_delete resource relation subject subject_relation none

abbrev tenant : Text → ObjectRef
tenant = obj "tenant"

abbrev user : Text → ObjectRef
user = obj "user"

abbrev group : Text → ObjectRef
group = obj "group"

abbrev account : Text → ObjectRef
account = obj "service_account"

abbrev platform : ObjectRef
platform = obj "platform" (lit "monok8s")

-- Users, their roles on a tenant, and denial.
pub data MemberWrite : Type 0 where
  user_registered : Text → MemberWrite
  tenant_created : Text → Text → MemberWrite
  member_joined : Text → Text → TenantRole → MemberWrite
  member_role_changed : Text → Text → TenantRole → TenantRole → MemberWrite
  member_suspended member_reinstated : Text → Text → MemberWrite
  member_removed : Text → Text → TenantRole → MemberWrite
  user_denied user_denied_revoked : Text → Text → MemberWrite

unfoldable pub member_updates : MemberWrite → List Update
unfolding rel_update
member_updates (user_registered u) =
    touch (user u) "self" (user u) none none ∷ touch (user u) "platform" platform none none ∷ []
member_updates (tenant_created t u) =
    touch (tenant t) "platform" platform none none
    ∷ touch (tenant t) "owner" (user u) none none
    ∷ []
member_updates (member_joined t u role) = touch (tenant t) (role_name role) (user u) none none ∷ []
member_updates (member_role_changed t u old_role new_role) =
    del (tenant t) (role_name old_role) (user u) none
    ∷ touch (tenant t) (role_name new_role) (user u) none none
    ∷ []
member_updates (member_suspended t u) = touch (tenant t) "suspended" (user u) none none ∷ []
member_updates (member_reinstated t u) = del (tenant t) "suspended" (user u) none ∷ []
member_updates (member_removed t u role) =
    del (tenant t) (role_name role) (user u) none ∷ del (tenant t) "suspended" (user u) none ∷ []
member_updates (user_denied t u) = touch (tenant t) "denied" (user u) none none ∷ []
member_updates (user_denied_revoked t u) = del (tenant t) "denied" (user u) none ∷ []

pub data GrantWrite : Type 0 where
  temporary_grant : Text → Text → PrincipalType → ServiceAccountRole → Text → GrantWrite
  temporary_grant_deleted : Text → Text → PrincipalType → ServiceAccountRole → GrantWrite

abbrev expiry_caveat : Text → Caveat
expiry_caveat expiry = record {
  caveat_name = "expiry";
  context = some (("expiry_time", expiry) ∷ []);
}

unfoldable pub grant_updates : GrantWrite → List Update
unfolding rel_update
grant_updates (temporary_grant t id type role expiry) =
    touch (tenant t) (role_name (as_role role)) (obj (principal_type_name type) id) none
      (some (expiry_caveat expiry))
    ∷ []
grant_updates (temporary_grant_deleted t id type role) =
    del (tenant t) (role_name (as_role role)) (obj (principal_type_name type) id) none ∷ []

pub data GroupWrite : Type 0 where
  group_created : Text → Text → GroupWrite
  group_member_added group_member_removed : Text → Text → GroupWrite
  group_nested : Text → Text → GroupWrite
  group_role_assigned group_role_revoked : Text → Text → TenantRole → GroupWrite

abbrev assigned_to_group : Text → Text → TenantRole → Result (List Update)
assigned_to_group t g TenantRole.owner =
    throw (error (lit "writeGroupRoleAssigned: groups cannot hold the `owner` role"))
assigned_to_group t g role =
    ok (touch (tenant t) (role_name role) (group g) (some "membership") none ∷ [])

unfoldable pub group_updates : GroupWrite → Result (List Update)
unfolding rel_update
group_updates (group_created g t) = ok (touch (group g) "tenant" (tenant t) none none ∷ [])
group_updates (group_member_added g u) = ok (touch (group g) "member" (user u) none none ∷ [])
group_updates (group_member_removed g u) = ok (del (group g) "member" (user u) none ∷ [])
group_updates (group_nested parent child) =
    ok (touch (group parent) "member" (group child) (some "membership") none ∷ [])
group_updates (group_role_assigned t g role) = assigned_to_group t g role
group_updates (group_role_revoked t g role) =
    ok (del (tenant t) (role_name role) (group g) (some "membership") ∷ [])

pub data AccountWrite : Type 0 where
  service_account_created : Text → Text → ServiceAccountRole → AccountWrite
  service_account_role_changed :
      Text → Text → ServiceAccountRole → ServiceAccountRole → AccountWrite
  service_account_suspended service_account_reinstated : Text → Text → AccountWrite
  service_account_removed : Text → Text → ServiceAccountRole → AccountWrite

unfoldable pub account_updates : AccountWrite → List Update
unfolding rel_update
account_updates (service_account_created sa t role) =
    touch (account sa) "tenant" (tenant t) none none
    ∷ touch (tenant t) (role_name (as_role role)) (account sa) none none
    ∷ []
account_updates (service_account_role_changed t sa old_role new_role) =
    del (tenant t) (role_name (as_role old_role)) (account sa) none
    ∷ touch (tenant t) (role_name (as_role new_role)) (account sa) none none
    ∷ []
account_updates (service_account_suspended t sa) =
    touch (tenant t) "suspended" (account sa) none none ∷ []
account_updates (service_account_reinstated t sa) =
    del (tenant t) "suspended" (account sa) none ∷ []
account_updates (service_account_removed t sa role) =
    del (tenant t) (role_name (as_role role)) (account sa) none
    ∷ del (tenant t) "suspended" (account sa) none
    ∷ []

-- Installations, the platform and the system.
pub data PlatformWrite : Type 0 where
  installation_registered installation_revoked : Text → Text → PlatformWrite
  platform_admin_changed : Text → Operation → PlatformWrite
  system_admin_relation : Text → PlatformWrite

unfoldable pub platform_updates : PlatformWrite → List Update
unfolding rel_update
platform_updates (installation_registered i t) =
    touch (obj "installation" i) "tenant" (tenant t) none none ∷ []
platform_updates (installation_revoked i t) =
    del (obj "installation" i) "tenant" (tenant t) none ∷ []
platform_updates (platform_admin_changed u op) =
    rel_update op platform "super_admin" (user u) none none ∷ []
platform_updates (system_admin_relation u) =
    touch (obj "system" (lit "monok8s")) "only_system_can_create_tenants" (user u) none none ∷ []

-- A call of any of the exported functions.
pub data Write : Type 0 where
  member_write : MemberWrite → Write
  grant_write : GrantWrite → Write
  group_write : GroupWrite → Write
  account_write : AccountWrite → Write
  platform_write : PlatformWrite → Write

-- The updates that the function sends in one request; one function may throw before that.
abbrev pub updates : Write → Result (List Update)
updates (member_write w) = ok (member_updates w)
updates (grant_write w) = ok (grant_updates w)
updates (group_write w) = group_updates w
updates (account_write w) = ok (account_updates w)
updates (platform_write w) = ok (platform_updates w)
