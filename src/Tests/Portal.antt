-- ===== src/Tests/Portal.antt =====
-- The portal's components: short runs of what users do, and of what the server answers.
use monok8s.Fixtures.{env, acme-IsUuid, alice_user}
use monok8s.Api.Login.{shape_wire_user}
use monok8s.Frontend.WorkflowRoute.{on_data, on_error}
use monok8s.Frontend.WorkflowRoute.Watching.{Watches, on_mount-Watches}
use monok8s.Prelude.{
  map, ◌≡◌, refl, ℕ, true, none, some, List, [], ◌∷◌, ◌++◌, Text, lit, ◌==◌, if◌then◌else◌,
}
use monok8s.Services.{ok, throw, error, Group, AuditLog, printed}
use monok8s.Auth.Roles.{TenantRole, service_account}
use monok8s.Api.Tenants.Requests.{accepts_create}
use monok8s.Frontend.Timeline.{Event, StepPhase, WorkflowPhase, workflow, step, derive_timeline}
use monok8s.Frontend.Timeline.History.{summary, newest_first}
use monok8s.Frontend.Timeline.Rows.{derive_timeline-summary}
use monok8s.Frontend.Blades.{Blade, Action, push, back, run}
use monok8s.Frontend.Blades.Stack.{IsDistinct, Replaces, run-push}
use monok8s.Frontend.Principals.{matches_uuid}
use monok8s.Frontend.Principals.Groups
use monok8s.Frontend.Principals.Groups.Sent.{IsSound, run-IsSound}
use monok8s.Frontend.Principals.Roles
use monok8s.Frontend.Principals.Roles.Sent
use monok8s.Frontend.TenantForm.{matches_email, trimmed, validate_tenant_new_form}
use monok8s.Frontend.TenantForm.Submissions.{accepted, validate_tenant_new_form-accepts}
use monok8s.Frontend.AuditPages
use monok8s.Frontend.AuditPages.Repeats.{next_pages, run-repeated}
use monok8s.Frontend.AuditLog.{unify_rows}
use monok8s.Frontend.AuditLog.Unseen.{once, twice}

abbrev onboarding : List Event
onboarding =
    workflow (lit "OnboardTenantWorkflow") WorkflowPhase.started none
    ∷ step (lit "OnboardTenantWorkflow") (lit "schema") StepPhase.started (lit "09:00") none
    ∷ step (lit "OnboardTenantWorkflow") (lit "schema") StepPhase.failed (lit "09:01")
        (some (lit "timeout"))
    ∷ []

derive_timeline-summary_example : derive_timeline onboarding ≡ summary (newest_first onboarding [])
derive_timeline-summary_example = derive_timeline-summary onboarding

abbrev blade : Text → Blade ℕ
blade id = record { id = id; title = id; content = 0; width = none }

abbrev clicks : List (Action ℕ)
clicks = push (blade (lit "vm")) ∷ push (blade (lit "disk")) ∷ back 1 ∷ []

run-push_example : IsDistinct (run clicks []) × Replaces (blade (lit "vm")) (run clicks [])
run-push_example = run-push clicks (blade (lit "vm"))

abbrev group_id : Text
group_id = lit "0a000000-0000-4000-8000-00000000000b"

abbrev devs : Group
devs = record {
  id = group_id;
  tenant_id = lit "t";
  name = lit "devs";
  parent_group_id = none;
  created_at = 0;
}

abbrev group_events : List Groups.Event
group_events =
    Groups.type_name (lit "devs")
    ∷ Groups.submit
    ∷ Groups.mutated (ok tt)
    ∷ Groups.refetched (ok tt)
    ∷ Groups.pick devs
    ∷ Groups.type_user group_id
    ∷ Groups.add
    ∷ Groups.member_mutated (throw (error (lit "refused")))
    ∷ []

group_id-matches : matches_uuid group_id ≡ true
unfolding matches_uuid lit
group_id-matches = refl

run-IsSound_example : IsSound matches_uuid (λ t e. e) (Groups.run group_events Groups.opened)
run-IsSound_example =
    run-IsSound matches_uuid (λ t e. e) group_events
      (tt, (tt, (tt, (tt, (group_id-matches, (tt, (tt, (tt, tt))))))))

abbrev role_events : List Roles.Event
role_events =
    Roles.type_id group_id
    ∷ Roles.pick_type service_account
    ∷ Roles.lookup
    ∷ Roles.pick_role TenantRole.owner
    ∷ Roles.submit_assign
    ∷ Roles.mutated (throw (error (lit "BAD_REQUEST")))
    ∷ []

run-IsJudged_example : Sent.IsSound matches_uuid (λ t e. e) (Roles.run role_events Roles.opened)
run-IsJudged_example = Sent.run-IsJudged matches_uuid (λ t e. e) role_events

validate_tenant_new_form-accepts_example :
    accepted (validate_tenant_new_form (lit " acme ") (lit "pro") (lit "ops@acme.io")) ≡ (
      if accepts_create matches_email (trimmed (lit " acme ") (lit "pro") (lit "ops@acme.io"))
      then some (trimmed (lit " acme ") (lit "pro") (lit "ops@acme.io"))
      else none)
validate_tenant_new_form-accepts_example =
    validate_tenant_new_form-accepts (lit " acme ") (lit "pro") (lit "ops@acme.io")

abbrev entry : Text → AuditLog Text
entry at_time = record {
  id = at_time;
  tenant_id = lit "t";
  principal_id = lit "u";
  principal_type = lit "user";
  action = lit "group.create";
  target_kind = lit "group";
  target_id = none;
  outcome = lit "success";
  error_message = none;
  metadata = none;
  created_at = printed at_time;
}

abbrev first_page : List (AuditLog Text)
first_page = entry (lit "09:02") ∷ entry (lit "09:01") ∷ []

abbrev second_page : List (AuditLog Text)
second_page = entry (lit "09:00") ∷ []

abbrev read_on : List (AuditLog Text)
read_on =
    (AuditPages.run (λ n. [])
      (AuditPages.landed first_page ∷ next_pages (λ n. []) (second_page ∷ []))
      (AuditPages.mounted (λ n. []))).history

run-repeated_example :
    (read_on ≡ first_page ++ twice first_page (second_page ∷ []))
    × (unify_rows (λ after_it rows. rows) (λ n. []) read_on []
        ≡ unify_rows (λ after_it rows. rows) (λ n. []) (first_page ++ once (second_page ∷ [])) [])
unfolding ◌==◌ lit
run-repeated_example =
    run-repeated (λ n. []) first_page (second_page ∷ []) (λ after_it rows. rows) [] refl

on_mount-Watches_example :
    Watches env (shape_wire_user alice_user) (on_error (lit "lost") ∷ map on_data onboarding) []
on_mount-Watches_example =
    on_mount-Watches env (shape_wire_user alice_user)
      (on_error (lit "lost") ∷ map on_data onboarding) [] acme-IsUuid
