-- ===== src/Auth/Spice/Writes/Distinct.antt =====
-- SpiceDB also refuses a request that names one relationship twice.
use text.Mathlib.Text.{◌==◌ as str_eq}
use monok8s.Prelude.{
  ◌≡◌, refl, Bool, true, false, ◌&&◌, not, List, [], ◌∷◌, any, ◌==◌, ==_refl, arith,
}
use monok8s.Services.{Relationship, Update, Result, ok, throw}
use monok8s.Auth.Roles.{TenantRole, ServiceAccountRole, as_role}
use monok8s.Auth.Spice.Writes.{
  Write, member_write, grant_write, group_write, account_write, platform_write, updates,
  MemberWrite, member_role_changed, member_removed, member_updates, GrantWrite, temporary_grant,
  grant_updates, GroupWrite, group_role_assigned, group_updates, AccountWrite,
  service_account_created, service_account_role_changed, service_account_removed, account_updates,
  PlatformWrite, installation_registered, platform_updates,
}

-- Two relationships are the same one if they agree in all but the caveat.
abbrev pub same_relationship : Relationship → Relationship → Bool
same_relationship a b =
    str_eq a.relation b.relation
    && str_eq a.resource.object_type b.resource.object_type
    && str_eq a.subject.object.object_type b.subject.object.object_type
    && str_eq a.subject.optional_relation b.subject.optional_relation
    && a.resource.object_id == b.resource.object_id
    && a.subject.object.object_id == b.subject.object.object_id

abbrev pub is_distinct : List Update → Bool
is_distinct [] = true
is_distinct (u ∷ us) =
    not (any (λ v. same_relationship u.relationship v.relationship) us) && is_distinct us

abbrev pub sends_distinct : Result (List Update) → Bool
sends_distinct (ok us) = is_distinct us
sends_distinct (throw e) = true

abbrev same_role : TenantRole → TenantRole → Bool
same_role TenantRole.owner TenantRole.owner = true
same_role TenantRole.admin TenantRole.admin = true
same_role TenantRole.member TenantRole.member = true
same_role TenantRole.viewer TenantRole.viewer = true
same_role TenantRole.billing_manager TenantRole.billing_manager = true
same_role _ _ = false

-- A role change from a role to itself.
abbrev pub is_idle_change : Write → Bool
is_idle_change (member_write (member_role_changed t u old_role new_role)) =
    same_role old_role new_role
is_idle_change (account_write (service_account_role_changed t sa old_role new_role)) =
    same_role (as_role old_role) (as_role new_role)
is_idle_change w = false

members : (w : MemberWrite) → is_distinct (member_updates w) ≡ not (is_idle_change (member_write w))
unfolding member_updates
members (member_role_changed t u TenantRole.owner TenantRole.owner) =
    ground (arith, ==_refl t, ==_refl u)
members (member_role_changed t u TenantRole.admin TenantRole.admin) =
    ground (arith, ==_refl t, ==_refl u)
members (member_role_changed t u TenantRole.member TenantRole.member) =
    ground (arith, ==_refl t, ==_refl u)
members (member_role_changed t u TenantRole.viewer TenantRole.viewer) =
    ground (arith, ==_refl t, ==_refl u)
members (member_role_changed t u TenantRole.billing_manager TenantRole.billing_manager) =
    ground (arith, ==_refl t, ==_refl u)
members (member_removed t u TenantRole.owner) = refl
members (member_removed t u _) = refl
members _ = refl

groups : (w : GroupWrite) → sends_distinct (group_updates w) ≡ true
unfolding group_updates
groups (group_role_assigned t g TenantRole.owner) = refl
groups (group_role_assigned t g _) = refl
groups _ = refl

accounts :
    (w : AccountWrite) → is_distinct (account_updates w) ≡ not (is_idle_change (account_write w))
unfolding account_updates
accounts (service_account_created sa t ServiceAccountRole.admin) = refl
accounts (service_account_created sa t _) = refl
accounts (service_account_role_changed t sa ServiceAccountRole.admin ServiceAccountRole.admin) =
    ground (arith, ==_refl t, ==_refl sa)
accounts (service_account_role_changed t sa ServiceAccountRole.member ServiceAccountRole.member) =
    ground (arith, ==_refl t, ==_refl sa)
accounts (service_account_role_changed t sa ServiceAccountRole.viewer ServiceAccountRole.viewer) =
    ground (arith, ==_refl t, ==_refl sa)
accounts
      (service_account_role_changed t sa ServiceAccountRole.billing_manager
        ServiceAccountRole.billing_manager) =
    ground (arith, ==_refl t, ==_refl sa)
accounts (service_account_removed t sa ServiceAccountRole.admin) = refl
accounts (service_account_removed t sa _) = refl
accounts _ = refl

grants : (w : GrantWrite) → is_distinct (grant_updates w) ≡ true
unfolding grant_updates
grants (temporary_grant t id type role expiry) = refl
grants _ = refl

platforms : (w : PlatformWrite) → is_distinct (platform_updates w) ≡ true
unfolding platform_updates
platforms (installation_registered i t) = refl
platforms _ = refl

-- For every call of a write function: its request names no relationship twice, unless the call
-- changes a role to itself; then it does.
pub updates-is_distinct : (w : Write) → sends_distinct (updates w) ≡ not (is_idle_change w)
updates-is_distinct (member_write w) = members w
updates-is_distinct (grant_write w) = grants w
updates-is_distinct (group_write w) = groups w
updates-is_distinct (account_write w) = accounts w
updates-is_distinct (platform_write w) = platforms w
