-- ===== src/Api/Events/Requests.antt =====
-- apps/api/src/routers/events.ts: the subscriptions that a client asks for, after the guards of their
-- procedures; the subjects are those of handlers/events.ts. The input of
-- `workflow` is any JSON value.
use monok8s.Prelude.{
  ℕ, Bool, false, not, ◌&&◌, ◌||◌, Option, none, some, ◌++◌, Text, lit, all, is_blank, leb, nat_eq,
  if◌then◌else◌,
}
use monok8s.Services.{Env, Thrown, error, Result, ok, throw}
use monok8s.Services.Exec.{Exec, raise, then_result}
use monok8s.Auth.Workflow.{tenant_prefix, can_on_workflow}
use monok8s.Api.Events.{Phase, checking, connecting}

-- `[A-Za-z0-9_-]`
abbrev pub in_suffix : ℕ → Bool
in_suffix c =
    (leb b'a' c && leb c b'z')
    || ((leb b'A' c && leb c b'Z')
        || ((leb b'0' c && leb c b'9') || (nat_eq c b'_' || nat_eq c b'-')))

-- WORKFLOW_ID_RE, after the prefix that it shares with `canOnWorkflow`.
abbrev pub suffix_matches : Option (Text × Text) → Bool
suffix_matches none = false
suffix_matches (some (tenant_id, rest)) = not (is_blank rest) && all in_suffix rest

unfoldable pub matches_workflow_id : Text → Bool
matches_workflow_id workflow_id = suffix_matches (tenant_prefix workflow_id)

-- A value that is no object, or the `workflowId` of one, where that is a text.
pub data Input : Type 0 where
  no_object : Input
  object : Option Text → Input

abbrev pub no_input : Thrown
no_input = error (lit "expected { workflowId }")

abbrev pub no_workflow_id : Thrown
no_workflow_id = error (lit "workflowId must match `tnt-<uuid>-<suffix>`")

unfoldable pub parse_workflow_id_input : Input → Result Text
parse_workflow_id_input no_object = throw no_input
parse_workflow_id_input (object none) = throw no_workflow_id
parse_workflow_id_input (object (some wid)) =
    if matches_workflow_id wid then ok wid else throw no_workflow_id

pub data Request : Type 0 where
  tenant : Request
  workflow : Input → Request
  audit : Request

abbrev pub tenant_subject : Text → Text
tenant_subject tenant_id = lit "tenant." ++ (tenant_id ++ lit ".events")

abbrev pub workflow_subject : Text → Text
workflow_subject workflow_id = lit "workflow." ++ (workflow_id ++ lit ".status")

abbrev pub audit_subject : Text → Text
audit_subject tenant_id = lit "audit.tenant." ++ tenant_id

-- Where the channel starts, and the subject that it listens on.
unfoldable pub events_router : Text → Request → Result (Phase × Text)
events_router tenant_id tenant = ok (connecting, tenant_subject tenant_id)
events_router tenant_id (workflow input) =
    then_result (parse_workflow_id_input input) (λ wid. ok (checking, workflow_subject wid))
events_router tenant_id audit = ok (connecting, audit_subject tenant_id)

-- The check that opens a workflow's channel.
abbrev pub checked_input : Env → Text → Result Text → Exec Bool
checked_input env user_id (ok wid) = can_on_workflow env user_id wid none
checked_input env user_id (throw e) = raise e

unfoldable pub handshake : Env → Text → Input → Exec Bool
handshake env user_id input = checked_input env user_id (parse_workflow_id_input input)
