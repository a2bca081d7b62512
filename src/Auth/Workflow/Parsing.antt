-- ===== src/Auth/Workflow/Parsing.antt =====
-- Workflow IDs are parsed back to the tenant that they were made for.
use mathlib.Core.List.{append_assoc}
use monok8s.Prelude.{ℕ, zero, suc, ◌≡◌, refl, Option, none, some, [], ◌∷◌, ◌++◌, Text, lit}
use monok8s.Services.{Env}
use monok8s.Auth.Roles.{TenantPermission}
use monok8s.Auth.Spice.{can_on_tenant}
use monok8s.Auth.Workflow.Uuid.{HexRun, IsUuid, dash}
use monok8s.Auth.Workflow.{hex_run, tenant_prefix, parse_tenant_from_workflow_id, can_on_workflow}

hex_run-append :
    (n : ℕ) (run rest : Text) → HexRun n run → hex_run n (run ++ rest) ≡ some (run, rest)
unfolding hex_run
hex_run-append zero [] rest h = refl
hex_run-append zero (c ∷ run) rest h = absurd h
hex_run-append (suc n) [] rest h = absurd h
hex_run-append (suc n) (c ∷ run) rest h = rw (h.0, hex_run-append n run rest h.1) refl

pub prefix-workflow_id :
    (t rest : Text) → IsUuid t → tenant_prefix (lit "tnt-" ++ (t ++ (dash ∷ rest))) ≡ some (t, rest)
unfolding tenant_prefix lit
prefix-workflow_id t rest u = rw u.joined (
    simp append_assoc (
      rw (
        hex_run-append 8 u.a _ u.in_a,
        hex_run-append 4 u.b _ u.in_b,
        hex_run-append 4 u.c _ u.in_c,
        hex_run-append 4 u.d _ u.in_d,
        hex_run-append 12 u.e _ u.in_e,
      )))

-- The ID that a template `tnt-${tenant}-${rest}` makes is parsed to its tenant, if that is a UUID.
pub parse-workflow_id :
    (t rest : Text)
    → IsUuid t
    → parse_tenant_from_workflow_id (lit "tnt-" ++ (t ++ (dash ∷ rest))) ≡ some t
unfolding parse_tenant_from_workflow_id
parse-workflow_id t rest u = rw (prefix-workflow_id t rest u) refl

pub can_on_workflow-tenant :
    (env : Env) (user_id wid t : Text) (zed_token : Option Text)
    → parse_tenant_from_workflow_id wid ≡ some t
    → can_on_workflow env user_id wid zed_token
      ≡ can_on_tenant env user_id TenantPermission.read t zed_token none
unfolding can_on_workflow
can_on_workflow-tenant env user_id wid t zed_token e = rw e refl

-- Asking for a workflow whose ID the template made is asking for `read` on its tenant: the same
-- answer or failure, after the same calls, whatever SpiceDB answers.
pub can_on_workflow-template :
    (env : Env) (user_id t rest : Text) (zed_token : Option Text)
    → IsUuid t
    → can_on_workflow env user_id (lit "tnt-" ++ (t ++ (dash ∷ rest))) zed_token
      ≡ can_on_tenant env user_id TenantPermission.read t zed_token none
can_on_workflow-template env user_id t rest zed_token u =
    can_on_workflow-tenant env user_id (lit "tnt-" ++ (t ++ (dash ∷ rest))) t zed_token
      (parse-workflow_id t rest u)
