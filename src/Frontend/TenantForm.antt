-- ===== src/Frontend/TenantForm.antt =====
-- frontend/src/routes/TenantNew.tsx: the form for a new tenant, through its handler. A disabled input or
-- button does nothing.
pub mod Submissions
use monok8s.Prelude.{
  ℕ, Bool, true, false, not, ◌&&◌, ◌||◌, Option, none, some, List, [], ◌∷◌, ◌++◌, Text, lit, ◌==◌,
  all, is_blank, length, ltb, nat_eq, trim, is_space, if◌then◌else◌,
}
use monok8s.Services.{Result, ok, throw}
use monok8s.Services.Exec.{detail_of}
use monok8s.Api.Tenants.{CreateTenantInput, CreateTenantResult}
use monok8s.Api.Tenants.Requests.{in_slug}
use monok8s.Frontend.Principals.{Validated, valid, invalid}

-- `[^@\s]`
abbrev pub in_address : ℕ → Bool
in_address c = not (nat_eq c b'@') && not (is_space c)

-- `\.[^@\s]+$`, where all that is left is in `[^@\s]`.
abbrev pub has_dot : Text → Bool
has_dot [] = false
has_dot (c ∷ s) = (nat_eq c b'.' && not (is_blank s)) || has_dot s

-- `[^@\s]+\.[^@\s]+$`
abbrev pub is_host : Text → Bool
is_host [] = false
is_host (c ∷ s) = all in_address (c ∷ s) && has_dot s

-- `[^@\s]*@[^@\s]+\.[^@\s]+$`
abbrev pub after_local : Text → Bool
after_local [] = false
after_local (c ∷ s) =
    let rest = after_local s in if nat_eq c b'@' then is_host s else in_address c && rest

-- EMAIL_RE
unfoldable pub matches_email : Text → Bool
matches_email [] = false
matches_email (c ∷ s) = in_address c && after_local s

abbrev pub is_plan : Text → Bool
is_plan p = p == lit "starter" || (p == lit "pro" || p == lit "enterprise")

-- The signals of the form, as it sends them.
abbrev pub trimmed : Text → Text → Text → CreateTenantInput
trimmed slug plan email = record { slug = trim slug; plan = some plan; owner_email = trim email }

unfoldable pub validate_tenant_new_form : Text → Text → Text → Validated CreateTenantInput
validate_tenant_new_form raw_slug plan raw_email =
    let slug = trim raw_slug in
    if ltb (length slug) 3 || ltb 64 (length slug)
    then invalid (lit "Slug must be 3–64 characters")
    else if is_blank slug || not (all in_slug slug)
    then invalid (lit "Slug must be lowercase alphanumeric or hyphen")
    else if not (is_plan plan)
    then invalid (lit "Plan must be starter, pro, or enterprise")
    else if not (matches_email (trim raw_email))
    then invalid (lit "Owner email must be a valid email address")
    else valid (trimmed raw_slug plan raw_email)

-- `sent` and `visited` are newest first. An answer is awaited just while `awaits` is true.
pub record TenantNew : Type 0 where
  pub slug : Text
  pub plan : Text
  pub owner_email : Text
  pub pending : Bool
  pub awaits : Bool
  pub error : Option Text
  pub sent : List CreateTenantInput
  pub visited : List Text

abbrev pub opened : TenantNew
opened = record {
  slug = [];
  plan = lit "starter";
  owner_email = [];
  pending = false;
  awaits = false;
  error = none;
  sent = [];
  visited = [];
}

pub data Event : Type 0 where
  type_slug pick_plan type_email : Text → Event
  submit : Event
  answer : Result CreateTenantResult → Event

-- handleSubmit, up to its `await`
abbrev pub submitted : Validated CreateTenantInput → TenantNew → TenantNew
submitted (invalid e) s = record s { error = some e }
submitted (valid input) s = record s {
  error = none;
  pending = true;
  awaits = true;
  sent = input ∷ s.sent;
}

-- what follows it
abbrev pub settled : Result CreateTenantResult → TenantNew → TenantNew
settled (ok r) s = record s {
  pending = false;
  awaits = false;
  visited = (lit "/tenants/" ++ r.tenant_id) ∷ s.visited;
}
settled (throw e) s = record s { pending = false; awaits = false; error = some (detail_of e) }

unfoldable pub on_event : Event → TenantNew → TenantNew
on_event (type_slug t) s = if s.pending then s else record s { slug = t }
on_event (pick_plan t) s = if s.pending then s else record s { plan = t }
on_event (type_email t) s = if s.pending then s else record s { owner_email = t }
on_event submit s =
    if s.pending then s else submitted (validate_tenant_new_form s.slug s.plan s.owner_email) s
on_event (answer r) s = if s.awaits then settled r s else s

unfoldable pub run : List Event → TenantNew → TenantNew
run [] s = s
run (e ∷ es) s = run es (on_event e s)
