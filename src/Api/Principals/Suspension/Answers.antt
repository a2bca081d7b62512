-- ===== src/Api/Principals/Suspension/Answers.antt =====
-- A SpiceDB whose answers about one tenant follow schema.zed and do not change while a handler runs.
use monok8s.Prelude.{◌≡◌, Bool, true, false, Option, none, List, map, Text, String, lit}
use monok8s.Services.{
  CheckRequest, LookupSubjectsRequest, Permissionship, has_permission, no_permission, SubjectHit,
  Env, Trace, Result, ok,
}
use monok8s.Auth.Roles.{TenantPermission}
use monok8s.Auth.Schema.{Facts, permits}
use monok8s.Auth.Spice.{obj, subj}

-- `facts` of each user on the tenant, and the users that hold the relation `owner`.
pub record View : Type 0 where
  pub facts : Text → Facts
  pub owners : List Text

abbrev pub transfers : View → Text → Bool
transfers v u = permits TenantPermission.transfer_ownership (v.facts u)

abbrev pub answer : Bool → Result Permissionship
answer true = ok has_permission
answer false = ok no_permission

abbrev pub hits : List Text → List SubjectHit
hits = map (λ id. record {
  subject = Option.some (record { subject_object_id = id; permissionship = has_permission });
})

abbrev pub user_check : String → Text → String → Text → CheckRequest
user_check type id permission u = record {
  resource = obj type id;
  permission = permission;
  subject = subj (obj "user" u) none;
  consistency = none;
  context = none;
}

abbrev pub owner_lookup : Text → LookupSubjectsRequest
owner_lookup t = record {
  resource = obj "tenant" t;
  permission = "owner";
  subject_object_type = "user";
  consistency = none;
}

pub record Answers (env : Env) (t : Text) (v : View) : Type 0 where
  pub on_transfer :
      (h : Trace) (u : Text)
      → env.on_check h (user_check "tenant" t "transfer_ownership" u) ≡ answer (transfers v u)
  pub on_suspended :
      (h : Trace) (u : Text)
      → env.on_check h (user_check "tenant" t "suspended" u) ≡ answer (v.facts u).suspended
  pub on_administrate :
      (h : Trace) (u : Text)
      → env.on_check h (user_check "platform" (lit "monok8s") "administrate" u)
        ≡ answer (v.facts u).platform_admin
  pub on_owners : (h : Trace) → env.on_lookup_subjects h (owner_lookup t) ≡ ok (hits v.owners)
