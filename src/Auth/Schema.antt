-- ===== src/Auth/Schema.antt =====
-- packages/auth/schema.zed: which subjects a relation accepts, and what the permissions of a tenant
-- compute. SpiceDB interprets the file; this is its text as functions.
use text.Mathlib.Text.{◌==◌ as str_eq}
use monok8s.Prelude.{String, Bool, true, false, ◌&&◌, ◌||◌, not, none, some, if◌then◌else◌}
use monok8s.Services.{Relationship}
use monok8s.Auth.Roles.{TenantRole, TenantPermission}

-- A subject as a relation's type list writes it: `user`, `group#membership`, `user with expiry`.
abbrev pub is_plain : Relationship → String → Bool
is_plain r type =
    str_eq r.subject.object.object_type type
    && str_eq r.subject.optional_relation ""
    && (elim r.optional_caveat [ none ↦ true | some c ↦ false ])

abbrev pub is_membership : Relationship → Bool
is_membership r =
    str_eq r.subject.object.object_type "group"
    && str_eq r.subject.optional_relation "membership"
    && (elim r.optional_caveat [ none ↦ true | some c ↦ false ])

abbrev pub is_caveated : Relationship → String → String → Bool
is_caveated r type caveat =
    str_eq r.subject.object.object_type type
    && str_eq r.subject.optional_relation ""
    && (elim r.optional_caveat [ none ↦ false | some c ↦ str_eq c.caveat_name caveat ])

-- member, viewer and billing_manager: user | group#membership | service_account
abbrev takes_principals : Relationship → Bool
takes_principals r = is_plain r "user" || is_membership r || is_plain r "service_account"

tenant_accepts : Relationship → Bool
tenant_accepts r =
    let rel = r.relation in
    if str_eq rel "platform"
    then is_plain r "platform"
    else if str_eq rel "owner"
    then is_plain r "user"
    else if str_eq rel "admin"
    then takes_principals r
      || is_caveated r "user" "expiry"
      || is_caveated r "service_account" "ip_allowlist"
      || is_caveated r "service_account" "expiry"
    else if str_eq rel "member" || str_eq rel "viewer" || str_eq rel "billing_manager"
    then takes_principals r
    else if str_eq rel "suspended" || str_eq rel "denied"
    then is_plain r "user" || is_plain r "service_account"
    else false

group_accepts : Relationship → Bool
group_accepts r =
    let rel = r.relation in
    if str_eq rel "tenant"
    then is_plain r "tenant"
    else if str_eq rel "member" || str_eq rel "manager"
    then is_plain r "user" || is_membership r
    else false

-- The relation is defined on the resource's type, and lists the subject's.
unfoldable pub accepts : Relationship → Bool
unfolding tenant_accepts group_accepts
accepts r =
    let type = r.resource.object_type in
    if str_eq type "tenant"
    then tenant_accepts r
    else if str_eq type "group"
    then group_accepts r
    else if str_eq type "platform"
    then str_eq r.relation "super_admin" && is_plain r "user"
    else if str_eq type "system"
    then str_eq r.relation "only_system_can_create_tenants" && is_plain r "user"
    else if str_eq type "service_account"
    then (str_eq r.relation "tenant" && is_plain r "tenant")
      || (str_eq r.relation "self" && is_plain r "service_account")
    else if str_eq type "installation"
    then (str_eq r.relation "tenant" && is_plain r "tenant")
      || (str_eq r.relation "platform" && is_plain r "platform")
    else if str_eq type "user"
    then (str_eq r.relation "self" && is_plain r "user")
      || (str_eq r.relation "platform" && is_plain r "platform")
    else false

-- What the relations of one tenant say of one principal; `role` counts roles held through groups.
pub record Facts : Type 0 where
  pub role : TenantRole → Bool
  pub suspended : Bool
  pub denied : Bool
  pub platform_admin : Bool

abbrev any_role : Facts → Bool
any_role f =
    f.role TenantRole.owner
    || f.role TenantRole.admin
    || f.role TenantRole.member
    || f.role TenantRole.viewer
    || f.role TenantRole.billing_manager

-- `roles - suspended - denied`
abbrev unless_blocked : Facts → Bool → Bool
unless_blocked f roles = roles && not f.suspended && not f.denied

unfoldable pub permits : TenantPermission → Facts → Bool
permits TenantPermission.read f = unless_blocked f (any_role f) || f.platform_admin
permits TenantPermission.write f =
    unless_blocked f
      (f.role TenantRole.owner || f.role TenantRole.admin || f.role TenantRole.member)
    || f.platform_admin
permits TenantPermission.manage_members f =
    unless_blocked f (f.role TenantRole.owner || f.role TenantRole.admin) || f.platform_admin
permits TenantPermission.manage_billing f =
    unless_blocked f
      (f.role TenantRole.owner || f.role TenantRole.admin || f.role TenantRole.billing_manager)
    || f.platform_admin
permits TenantPermission.manage_settings f =
    unless_blocked f (f.role TenantRole.owner || f.role TenantRole.admin) || f.platform_admin
permits TenantPermission.delete f = unless_blocked f (f.role TenantRole.owner) || f.platform_admin
permits TenantPermission.transfer_ownership f = unless_blocked f (f.role TenantRole.owner)
