-- ===== src/Fixtures.antt =====
-- Concrete data: one tenant, its owners, and servers that answer by a fixed view of it.
use monok8s.Prelude.{
  refl, Bool, true, false, ◌||◌, none, some, [], ◌∷◌, Text, lit, ◌==◌, if◌then◌else◌,
}
use monok8s.Services.{
  throw, error, Env, Result, ok, CheckRequest, Permissionship, has_permission, Tenant,
}
use monok8s.Auth.Roles.{TenantRole}
use text.Mathlib.Text.{◌==◌ as str_eq}
use monok8s.Auth.Schema.{Facts}
use monok8s.Auth.Workflow.Uuid.{IsUuid}
use monok8s.Auth.Zitadel.{VerifiedUser}
use monok8s.Api.Principals.Suspension.Answers.{View, Answers, transfers, answer, hits}

abbrev pub acme : Text
acme = lit "0f8fad5b-d9cb-469f-a165-70867728950e"

abbrev pub alice : Text
alice = lit "alice"

abbrev pub bob : Text
bob = lit "bob"

abbrev pub dora : Text
dora = lit "dora"

pub acme-IsUuid : IsUuid acme
unfolding lit
acme-IsUuid = record {
  a = lit "0f8fad5b";
  b = lit "d9cb";
  c = lit "469f";
  d = lit "a165";
  e = lit "70867728950e";
  in_a = (refl, (refl, (refl, (refl, (refl, (refl, (refl, (refl, tt))))))));
  in_b = (refl, (refl, (refl, (refl, tt))));
  in_c = (refl, (refl, (refl, (refl, tt))));
  in_d = (refl, (refl, (refl, (refl, tt))));
  in_e = (
    refl,
    (refl, (refl, (refl, (refl, (refl, (refl, (refl, (refl, (refl, (refl, (refl, tt))))))))))),
  );
  joined = refl;
}

abbrev pub is_an_owner : Text → Bool
is_an_owner u = u == alice || (u == bob || u == dora)

-- Alice, Bob and Dora own the tenant; Dora is suspended; everyone else is a member.
abbrev pub has_role : Bool → TenantRole → Bool
has_role owns TenantRole.owner = owns
has_role owns TenantRole.member = true
has_role owns _ = false

abbrev pub facts_of : Text → Facts
facts_of u = record {
  role = has_role (is_an_owner u);
  suspended = u == dora;
  denied = false;
  platform_admin = false;
}

abbrev pub view : View
view = record { facts = facts_of; owners = alice ∷ bob ∷ dora ∷ [] }

abbrev pub check_answer : CheckRequest → Result Permissionship
check_answer req =
    let u = req.subject.object.object_id in
    if str_eq req.permission "transfer_ownership"
    then answer (transfers view u)
    else if str_eq req.permission "suspended"
    then answer (facts_of u).suspended
    else if str_eq req.permission "administrate"
    then answer (facts_of u).platform_admin
    else ok has_permission

abbrev pub acme_row : Tenant
acme_row = record { id = acme; slug = lit "acme"; plan = lit "starter"; created_at = 0 }

abbrev pub env : Env
env = record {
  on_check = λ h req. check_answer req;
  on_lookup_resources = λ h req. ok [];
  on_lookup_subjects = λ h req. ok (hits view.owners);
  on_write = λ h us. ok none;
  on_start = λ h req. ok tt;
  on_signal = λ h w s payload. ok tt;
  on_fetch = λ h req. ok tt;
  on_query_tenants = λ h q. ok (acme_row ∷ []);
  on_query_users = λ h q. ok [];
  on_query_groups = λ h q. ok [];
  on_query_grants = λ h q. ok [];
  on_query_ids = λ h q. ok [];
  on_insert = λ h q. ok tt;
  on_publish = λ h subject message. throw (error (lit "NATS is down"));
  on_uuid = λ h. lit "e02fd0e4-00fd-090a-ca30-0d00a0038ba0";
  on_clock = λ h. 1000;
  to_iso = λ ms. lit "1970-01-01T00:00:01.000Z";
}

pub env-Answers : Answers env acme view
env-Answers = record {
  on_transfer = λ h u. refl;
  on_suspended = λ h u. refl;
  on_administrate = λ h u. refl;
  on_owners = λ h. refl;
}

abbrev pub alice_user : VerifiedUser
alice_user = record {
  user_id = alice;
  zitadel_id = lit "z1";
  tenant_id = acme;
  email = lit "alice@acme.test";
  amr = some (lit "pwd" ∷ lit "otp" ∷ []);
  acr = none;
}

pub fresh-IsUuid : IsUuid (lit "e02fd0e4-00fd-090a-ca30-0d00a0038ba0")
unfolding lit
fresh-IsUuid = record {
  a = lit "e02fd0e4";
  b = lit "00fd";
  c = lit "090a";
  d = lit "ca30";
  e = lit "0d00a0038ba0";
  in_a = (refl, (refl, (refl, (refl, (refl, (refl, (refl, (refl, tt))))))));
  in_b = (refl, (refl, (refl, (refl, tt))));
  in_c = (refl, (refl, (refl, (refl, tt))));
  in_d = (refl, (refl, (refl, (refl, tt))));
  in_e = (
    refl,
    (refl, (refl, (refl, (refl, (refl, (refl, (refl, (refl, (refl, (refl, (refl, tt))))))))))),
  );
  joined = refl;
}
