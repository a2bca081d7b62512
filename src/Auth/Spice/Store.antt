-- ===== src/Auth/Spice/Store.antt =====
-- SpiceDB's store of relationships, as the code relies on it: a request that names no relationship
-- twice takes effect as a whole, a op_touch leaves its relationship there, a op_delete leaves it absent,
-- and every other relationship stays as it was.
use monok8s.Prelude.{
  ◌≡◌, Bool, true, false, ◌||◌, Option, List, [], ◌∷◌, String, Text, if◌then◌else◌,
}
use monok8s.Services.{ObjectRef, Relationship, op_touch, op_delete, Update}
use monok8s.Auth.Roles.{TenantRole, role_name}
use monok8s.Auth.Schema.{Facts}
use monok8s.Auth.Spice.{obj, subj}
use monok8s.Auth.Spice.Writes.Distinct.{same_relationship, is_distinct}

-- Whether the relationship is there after the update, given whether it was.
abbrev pub apply_update : Update → Relationship → Bool → Bool
apply_update u r before =
    if same_relationship u.relationship r
    then (elim u.operation [ op_touch ↦ true | op_delete ↦ false ])
    else before

abbrev pub apply_updates : List Update → Relationship → Bool → Bool
apply_updates [] r before = before
apply_updates (u ∷ us) r before = apply_updates us r (apply_update u r before)

pub record RelationshipStore : Type 1 where
  pub Store : Type 0
  pub holds : Store → Relationship → Bool
  pub write : Store → List Update → Store
  pub holds-write :
      (s : Store) (us : List Update) (r : Relationship)
      → is_distinct us ≡ true
      → holds (write s us) r ≡ apply_updates us r (holds s r)

-- A relation of a tenant to a principal, held directly.
abbrev pub on_tenant : Text → String → ObjectRef → Relationship
on_tenant t relation principal = record {
  resource = obj "tenant" t;
  relation = relation;
  subject = subj principal Option.none;
  optional_caveat = Option.none;
}

module _ (store : RelationshipStore) where
  open store use {Store, holds}

  -- What the schema computes with: relationships of the principal itself, roles that it has through
  -- groups, and whether it administrates the platform.
  abbrev pub facts : Store → (TenantRole → Bool) → Bool → Text → ObjectRef → Facts
  facts s via_group platform_admin t p = record {
    role = λ r. holds s (on_tenant t (role_name r) p) || via_group r;
    suspended = holds s (on_tenant t "suspended" p);
    denied = holds s (on_tenant t "denied" p);
    platform_admin = platform_admin;
  }
