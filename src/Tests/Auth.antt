-- ===== src/Tests/Auth.antt =====
-- packages/auth: the writes, the permissions, the workflow IDs and the guards.
use monok8s.Prelude.{
  ◌≡◌, refl, Bool, true, false, Option, none, some, [], ◌∷◌, Text, lit, ◌==◌, ◌⊎◌,
}
use monok8s.Services.{ok, error, Relationship, clock, Result}
use monok8s.Services.Exec.{Exec, pure, raise}
use monok8s.Auth.Roles.{TenantRole, TenantPermission}
use monok8s.Auth.Schema.{permits}
use monok8s.Auth.Spice.{obj}
use monok8s.Auth.Spice.Store.{RelationshipStore, on_tenant, facts, apply_updates}
use monok8s.Auth.Spice.Writes.{
  Write, member_write, member_role_changed, member_suspended, member_updates, updates,
}
use monok8s.Auth.Spice.Writes.Conformance.{is_accepted, is_grantable, updates-is_accepted}
use monok8s.Auth.Spice.Writes.Distinct.{same_relationship}
use monok8s.Auth.Spice.Suspension.{
  admin_only, suspend_then_reinstate, permits-suspended, permits-reinstated,
}
use monok8s.Auth.Zitadel.{VerifiedUser}
use monok8s.Auth.Middleware.{not_given}
use monok8s.Auth.Middleware.{installation}
use monok8s.Auth.Roles.{InstallationPermission}
use monok8s.Auth.Middleware.Required.{Stopped, Passed, require_permission-guards}
use monok8s.Auth.Middleware.Authorised.{Refused, Admitted, tenant_procedure-guards}
use monok8s.Auth.Audit.{
  AuditEventSpec, AuditEnvelope, Answer, failure, an_error, failed, mutation, audit_middleware,
}
use monok8s.Auth.Audit.Emission.{fails_with_error, audit_middleware-emits}
use monok8s.Fixtures.{acme, alice, env, alice_user}

abbrev promotion : Write
promotion = member_write (member_role_changed acme alice TenantRole.member TenantRole.admin)

updates-is_accepted_example : is_accepted (updates promotion) ≡ is_grantable promotion
updates-is_accepted_example = updates-is_accepted promotion

-- A store is the set of its relationships.
abbrev set_store : RelationshipStore
set_store = record {
  Store = Relationship → Bool;
  holds = λ s r. s r;
  write = λ s us r. apply_updates us r (s r);
  holds-write = λ s us r d. refl;
}

-- Everyone is a member of everything, and nothing else.
abbrev members : Relationship → Bool
members r = same_relationship r (on_tenant acme "member" r.subject.object)

permits-suspended_example :
    permits TenantPermission.write (
      facts set_store
        (set_store.write members (member_updates (member_suspended acme alice)))
        (λ r. false)
        true
        acme
        (obj "user" alice))
    ≡ admin_only TenantPermission.write true
permits-suspended_example =
    permits-suspended set_store members (λ r. false) true acme alice TenantPermission.write

permits-reinstated_example :
    permits TenantPermission.write (
      facts set_store
        (suspend_then_reinstate set_store members (λ r. false) true acme alice)
        (λ r. false)
        true
        acme
        (obj "user" alice))
    ≡ permits TenantPermission.write
        (facts set_store members (λ r. false) true acme (obj "user" alice))
unfolding ◌==◌ lit
permits-reinstated_example =
    permits-reinstated set_store members (λ r. false) true acme alice TenantPermission.write refl

abbrev verifier : Text → Exec VerifiedUser
verifier token = pure alice_user

tenant_procedure-guards_example :
    Refused Text env verifier (λ t. pure 7) TenantPermission.write not_given (lit "jwt") []
    ⊎ Admitted Text env verifier (λ t. pure 7) TenantPermission.write not_given (lit "jwt") []
tenant_procedure-guards_example =
    tenant_procedure-guards Text env verifier (λ t. pure 7) TenantPermission.write not_given
      (lit "jwt") []

abbrev spec : Result (Option Text) → AuditEventSpec Text Text Text
spec metadata = record {
  action = lit "tenant.update";
  target = λ raw. ok (record { kind = lit "tenant"; id = some raw });
  metadata = λ raw answer. metadata;
}

abbrev emitter : AuditEnvelope Text → Exec (Unit {0})
emitter e = raise (error (lit "NATS is down"))

abbrev full : Answer Text
full = failure (an_error (lit "quota exceeded"))

audit_middleware-emits_example :
    audit_middleware env
      (spec (ok none))
      (λ user db. emitter)
      mutation
      (some alice_user)
      none
      (pure acme)
      (pure full)
      []
    ≡ (ok (some full), clock ∷ [])
audit_middleware-emits_example =
    audit_middleware-emits env (spec (ok none)) (λ user db. emitter) alice_user none (pure acme)
      (pure full) [] [] (clock ∷ []) acme (record { kind = lit "tenant"; id = some acme }) (ok full)
      (failed (lit "quota exceeded")) none (ok (some full)) (ok none) refl refl refl
      fails_with_error refl

require_permission-guards_example :
    Stopped Text env not_given alice_user [] (installation (lit "i1") InstallationPermission.revoke)
    ⊎ Passed Text env not_given alice_user []
        (installation (lit "i1") InstallationPermission.revoke)
require_permission-guards_example =
    require_permission-guards Text env not_given alice_user []
      (installation (lit "i1") InstallationPermission.revoke)
