-- ===== src/Auth/Spice.antt =====
-- packages/auth/src/spicedb.ts: building requests, and the permission checks and lookups. The
-- client is taken as connected: reading SPICEDB_ENDPOINT and SPICEDB_TOKEN is not modelled.
pub mod Writes
pub mod Store
pub mod Suspension
use monok8s.Prelude.{
  String, Bool, true, false, ◌&&◌, Option, none, some, List, [], ◌∷◌, ◌++◌, Text, lit, is_blank,
  or_else, if◌then◌else◌,
}
use monok8s.Services.{
  ObjectRef, SubjectReference, CheckRequest, Permissionship, unspecified, no_permission,
  has_permission, conditional_permission, LookupResourcesRequest, LookupSubjectsRequest,
  ResourceHit, SubjectHit, ResolvedSubject, Env, check_permission, lookup_resources,
  lookup_subjects,
}
use monok8s.Services.Exec.{Exec, pure, perform, both, ◌>>=◌}
use monok8s.Auth.Roles.{
  TenantPermission, permission_name, UserPermission, user_permission_name, InstallationPermission,
  installation_permission_name, PrincipalType, principal_type_name,
}

abbrev pub obj : String → Text → ObjectRef
obj type id = record { object_type = type; object_id = id }

abbrev pub subj : ObjectRef → Option String → SubjectReference
subj o relation = record { object = o; optional_relation = or_else relation "" }

-- `zedToken ? atLeastAsFresh(zedToken) : undefined`; the empty token is falsy.
abbrev pub fresh_as : Option Text → Option Text
fresh_as none = none
fresh_as (some token) = if is_blank token then none else some token

pub record CaveatContext : Type 0 where
  pub now : Option Text
  pub client_ip : Option Text

abbrev field_of : String → Option Text → List (String × Text)
field_of key none = []
field_of key (some v) = (key, v) ∷ []

-- No context is sent for an object without keys.
abbrev non_empty : List (String × Text) → Option (List (String × Text))
non_empty [] = none
non_empty (x ∷ xs) = some (x ∷ xs)

unfoldable pub context_fields : Option CaveatContext → Option (List (String × Text))
context_fields none = none
context_fields (some c) = non_empty (field_of "now" c.now ++ field_of "client_ip" c.client_ip)

abbrev pub is_held : Permissionship → Bool
is_held has_permission = true
is_held unspecified = false
is_held no_permission = false
is_held conditional_permission = false

abbrev held_resources : List ResourceHit → List Text
held_resources [] = []
held_resources (r ∷ rs) =
    if is_held r.permissionship then r.resource_object_id ∷ held_resources rs else held_resources rs

-- A hit without a subject is dropped by the filter.
abbrev pub hit_id : Option ResolvedSubject → List Text
hit_id none = []
hit_id (some s) = if is_held s.permissionship then s.subject_object_id ∷ [] else []

abbrev pub held_subjects : List SubjectHit → List Text
held_subjects [] = []
held_subjects (r ∷ rs) = hit_id r.subject ++ held_subjects rs

module _ (env : Env) where
  unfoldable pub check :
      ObjectRef
      → String
      → ObjectRef
      → Option String
      → Option Text
      → Option CaveatContext
      → Exec Bool
  unfolding context_fields
  check resource permission subject relation zed_token caveats =
      let req : CheckRequest = record {
        resource = resource;
        permission = permission;
        subject = subj subject relation;
        consistency = fresh_as zed_token;
        context = context_fields caveats;
      } in
      do res ← perform (λ h. env.on_check h req) (check_permission req); pure (is_held res)

  unfoldable pub can_on_tenant :
      Text → TenantPermission → Text → Option Text → Option CaveatContext → Exec Bool
  unfolding check
  can_on_tenant user_id permission tenant_id zed_token caveats =
      check (obj "tenant" tenant_id) (permission_name permission) (obj "user" user_id) none
        zed_token caveats

  unfoldable pub can_sa_on_tenant :
      Text → TenantPermission → Text → Option Text → Option CaveatContext → Exec Bool
  unfolding check
  can_sa_on_tenant sa_id permission tenant_id zed_token caveats =
      check (obj "tenant" tenant_id) (permission_name permission) (obj "service_account" sa_id) none
        zed_token caveats

  unfoldable pub can_on_user : Text → UserPermission → Text → Option Text → Exec Bool
  unfolding check
  can_on_user actor_id permission target_user_id zed_token =
      check (obj "user" target_user_id) (user_permission_name permission) (obj "user" actor_id) none
        zed_token none

  -- The two checks are made in parallel.
  unfoldable pub can_act_on_member : Text → Text → Text → TenantPermission → Option Text → Exec Bool
  unfolding can_on_tenant
  can_act_on_member actor_id target_id tenant_id permission zed_token = do
    (actor_ok, target_ok) ←
        both (can_on_tenant actor_id permission tenant_id zed_token none)
          (can_on_tenant target_id TenantPermission.read tenant_id zed_token none)
    pure (actor_ok && target_ok)

  unfoldable pub is_platform_admin : Text → Exec Bool
  unfolding check
  is_platform_admin user_id =
      check (obj "platform" (lit "monok8s")) "administrate" (obj "user" user_id) none none none

  -- The one system permission is "create_tenants".
  unfoldable pub can_on_system : Text → Option Text → Exec Bool
  unfolding check
  can_on_system user_id zed_token =
      check (obj "system" (lit "monok8s")) "create_tenants" (obj "user" user_id) none zed_token none

  unfoldable pub can_on_installation :
      Text → InstallationPermission → Text → Option Text → Exec Bool
  unfolding check
  can_on_installation user_id permission installation_id zed_token =
      check (obj "installation" installation_id) (installation_permission_name permission)
        (obj "user" user_id) none zed_token none

  unfoldable pub check_relation :
      ObjectRef → String → PrincipalType → Text → Option Text → Exec Bool
  unfolding check
  check_relation resource relation type id zed_token =
      check resource relation (obj (principal_type_name type) id) none zed_token none

  unfoldable pub lookup_resources_of :
      String → String → PrincipalType → Text → Option Text → Exec (List Text)
  lookup_resources_of resource_type permission type id zed_token =
      let req : LookupResourcesRequest = record {
        resource_object_type = resource_type;
        permission = permission;
        subject = subj (obj (principal_type_name type) id) none;
        consistency = fresh_as zed_token;
      } in
      do
        res ← perform (λ h. env.on_lookup_resources h req) (lookup_resources req)
        pure (held_resources res)

  unfoldable pub lookup_subjects_of :
      ObjectRef → String → PrincipalType → Option Text → Exec (List Text)
  lookup_subjects_of resource permission type zed_token =
      let req : LookupSubjectsRequest = record {
        resource = resource;
        permission = permission;
        subject_object_type = principal_type_name type;
        consistency = fresh_as zed_token;
      } in
      do
        res ← perform (λ h. env.on_lookup_subjects h req) (lookup_subjects req)
        pure (held_subjects res)
