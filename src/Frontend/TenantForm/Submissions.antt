-- ===== src/Frontend/TenantForm/Submissions.antt =====
-- The form for a new tenant lets through what the server's schema accepts, up to the two tests of addresses.
use monok8s.Prelude.{
  ◌≡◌, refl, Bool, true, false, not, ◌||◌, All, Option, none, some, List, [], ◌∷◌, Text, all, arith,
  is_blank, length, ltb, trim, if◌then◌else◌,
}
use monok8s.Services.{Result, ok, throw}
use monok8s.Api.Tenants.{CreateTenantInput, CreateTenantResult}
use monok8s.Api.Tenants.Requests.{in_slug, accepts_slug, accepts_create}
use monok8s.Frontend.Principals.{Validated, valid, invalid}
use monok8s.Frontend.TenantForm.{
  TenantNew, opened, Event, type_slug, pick_plan, type_email, submit, answer, matches_email,
  trimmed, validate_tenant_new_form, submitted, settled, on_event, run,
}

abbrev pub accepted : Validated CreateTenantInput → Option CreateTenantInput
accepted (valid input) = some input
accepted (invalid e) = none

slug_tests :
    (s : Text)
    → ((ltb (length s) 3 || ltb 64 (length s)) || (is_blank s || not (all in_slug s)))
      ≡ not (accepts_slug s)
slug_tests s = ground arith

-- The form lets through just what the server's schema would accept with the form's own test of addresses,
-- on the trimmed inputs, and sends that.
pub validate_tenant_new_form-accepts :
    (slug plan email : Text)
    → accepted (validate_tenant_new_form slug plan email) ≡ (
        if accepts_create matches_email (trimmed slug plan email)
        then some (trimmed slug plan email)
        else none)
unfolding validate_tenant_new_form accepts_create
validate_tenant_new_form-accepts slug plan email = ground (arith, slug_tests (trim slug))

module _ (is_email : Text → Bool) where
  -- Of a request that was sent, the server's schema has nothing left to judge but the address.
  abbrev pub IsJudged : CreateTenantInput → Type 0
  IsJudged input =
      (accepts_create is_email input ≡ is_email input.owner_email)
      × (matches_email input.owner_email ≡ true)

  pub record Sound (s : TenantNew) : Type 0 where
    pub tracked : s.pending ≡ s.awaits
    pub judged : All IsJudged s.sent

  valid-IsJudged :
      (slug plan email : Text) (input : CreateTenantInput)
      → validate_tenant_new_form slug plan email ≡ valid input
      → IsJudged input
  unfolding accepts_create validate_tenant_new_form
  valid-IsJudged slug plan email input e = (ground (arith, slug_tests (trim slug)), ground arith)

  guarded : (b : Bool) (s t : TenantNew) → Sound s → Sound t → Sound (if b then s else t)
  guarded true s t i j = i
  guarded false s t i j = j

  submitted-Sound :
      (r : Validated CreateTenantInput) (s : TenantNew)
      → ((input : CreateTenantInput) → r ≡ valid input → IsJudged input)
      → Sound s
      → Sound (submitted r s)
  submitted-Sound (invalid e) s h i = record { tracked = i.tracked; judged = i.judged }
  submitted-Sound (valid input) s h i = record { tracked = refl; judged = (h input refl, i.judged) }

  settled-Sound : (r : Result CreateTenantResult) (s : TenantNew) → Sound s → Sound (settled r s)
  settled-Sound (ok r) s i = record { tracked = refl; judged = i.judged }
  settled-Sound (throw e) s i = record { tracked = refl; judged = i.judged }

  on_event-Sound : (e : Event) (s : TenantNew) → Sound s → Sound (on_event e s)
  unfolding on_event
  on_event-Sound (type_slug t) s i =
      guarded s.pending s (record s { slug = t }) i
        (record { tracked = i.tracked; judged = i.judged })
  on_event-Sound (pick_plan t) s i =
      guarded s.pending s (record s { plan = t }) i
        (record { tracked = i.tracked; judged = i.judged })
  on_event-Sound (type_email t) s i =
      guarded s.pending s (record s { owner_email = t }) i
        (record { tracked = i.tracked; judged = i.judged })
  on_event-Sound submit s i =
      let form = validate_tenant_new_form s.slug s.plan s.owner_email in
      guarded s.pending s (submitted form s) i
        (submitted-Sound form s (valid-IsJudged s.slug s.plan s.owner_email) i)
  on_event-Sound (answer r) s i = guarded s.awaits (settled r s) s (settled-Sound r s i) i

  run-keeps : (es : List Event) (s : TenantNew) → Sound s → Sound (run es s)
  unfolding run
  run-keeps [] s i = i
  run-keeps (e ∷ es) s i = run-keeps es (on_event e s) (on_event-Sound e s i)

  -- Whatever is typed, submitted and answered: of each request that the form has sent, the server's schema
  -- has nothing left to judge but the owner's address, by zod's test, which has passed the form's own;
  -- and the form is disabled just while an answer is awaited.
  pub run-Sound : (es : List Event) → Sound (run es opened)
  run-Sound es = run-keeps es opened (record { tracked = refl; judged = tt })
