-- ===== src/Api/Principals/Roles/Listing.antt =====
-- The roles listed for a principal are those that SpiceDB answers for.
use monok8s.Prelude.{
  ◌≡◌, refl, ap, Bool, Option, none, some, List, [], ◌∷◌, map, Text, filter, if◌then◌else◌,
  Bool-cases, inl, inr,
}
use monok8s.Services.{Env, Trace, CheckRequest, Permissionship, ok, check_permission}
use monok8s.Services.Exec.{all_of}
use monok8s.Auth.Roles.{TenantRole, role_name, principal_type_name}
use monok8s.Auth.Spice.{obj, subj, fresh_as, is_held, check, check_relation}
use monok8s.Api.Principals.Roles.{
  Principal, tenant_roles, non_null, probe, list_roles_for_principal,
}

-- The request that asks whether the principal has the role.
abbrev pub role_request : Text → Principal → TenantRole → CheckRequest
role_request t p role = record {
  resource = obj "tenant" t;
  permission = role_name role;
  subject = subj (obj (principal_type_name p.type) p.id) none;
  consistency = fresh_as none;
  context = none;
}

module _ (env : Env) (t : Text) (p : Principal) (answer : CheckRequest → Permissionship)
    (steady : (h : Trace) (req : CheckRequest) → env.on_check h req ≡ ok (answer req)) where
  abbrev pub holds : TenantRole → Bool
  holds role = is_held (answer (role_request t p role))

  -- The calls, the newest first.
  abbrev pub asked : List TenantRole → Trace → Trace
  asked [] h = h
  asked (r ∷ rs) h = asked rs (check_permission (role_request t p r) ∷ h)

  abbrev found : List TenantRole → List (Option TenantRole)
  found [] = []
  found (r ∷ rs) = (if holds r then some r else none) ∷ found rs

  probe_lem :
      (r : TenantRole) (h : Trace)
      → probe env t p r h
        ≡ (ok (if holds r then some r else none), check_permission (role_request t p r) ∷ h)
  unfolding probe check_relation check
  probe_lem r h = rw (steady h (role_request t p r)) refl

  all-found :
      (rs : List TenantRole) (h : Trace)
      → all_of (map (probe env t p) rs) h ≡ (ok (found rs), asked rs h)
  unfolding all_of
  all-found [] h = refl
  all-found (r ∷ rs) h =
      rw (probe_lem r h, all-found rs (check_permission (role_request t p r) ∷ h)) refl

  non_null-found : (rs : List TenantRole) → non_null (found rs) ≡ filter holds rs
  non_null-found [] = refl
  non_null-found (r ∷ rs) = elim (Bool-cases (holds r)) [
    | inl b ↦ rw b (ap (λ xs. r ∷ xs) (non_null-found rs))
    | inr b ↦ rw b (non_null-found rs)
  ]

  -- While SpiceDB's answers do not change or fail, the roles listed for a principal are exactly those
  -- that it answers for, in the order of the five roles, after one check for each.
  pub list_roles_for_principal-filter :
      (h : Trace)
      → list_roles_for_principal env t p h ≡ (ok (filter holds tenant_roles), asked tenant_roles h)
  unfolding list_roles_for_principal
  list_roles_for_principal-filter h =
      rw (all-found tenant_roles h, non_null-found tenant_roles) refl
