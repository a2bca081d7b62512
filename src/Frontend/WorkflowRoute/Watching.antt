-- ===== src/Frontend/WorkflowRoute/Watching.antt =====
-- The workflows route against the server's subscription, and what its timeline shows.
use monok8s.Prelude.{◌≡◌, ◌∙◌, refl, ap, sym, none, some, List, [], ◌∷◌, ◌++◌, Text, lit}
use mathlib.Core.List.{append_assoc, append-nil}
use monok8s.Services.{Env, Trace}
use monok8s.Auth.Roles.{TenantPermission}
use monok8s.Auth.Spice.{can_on_tenant}
use monok8s.Auth.Workflow.Uuid.{IsUuid}
use monok8s.Api.Login.{WireUser}
use monok8s.Api.Events.Requests.{Input, object, handshake}
use monok8s.Api.Events.Handshake.{handshake-template}
use monok8s.Frontend.Timeline.{Event, derive_timeline}
use monok8s.Frontend.Timeline.History.{summary, newest_first}
use monok8s.Frontend.Timeline.Rows.{derive_timeline-summary}
use monok8s.Frontend.WorkflowRoute.{
  Workflows, placeholder_workflow_id, on_mount, Message, on_data, on_error, receive, receive_all,
}

-- The events among the messages
abbrev pub data_of : List Message → List Event
data_of [] = []
data_of (on_data e ∷ ms) = e ∷ data_of ms
data_of (on_error m ∷ ms) = data_of ms

receive_all-events :
    (ms : List Message) (s : Workflows) → (receive_all ms s).events ≡ s.events ++ data_of ms
unfolding receive_all receive
receive_all-events [] s = sym (append-nil s.events)
receive_all-events (on_data e ∷ ms) s =
    receive_all-events ms (record s { events = s.events ++ (e ∷ []) })
    ∙ append_assoc s.events (e ∷ []) (data_of ms)
receive_all-events (on_error m ∷ ms) s = receive_all-events ms (record s { error = some m })

placeholder-handshake :
    (env : Env) (user_id t : Text) (h : Trace)
    → IsUuid t
    → handshake env user_id (object (some (placeholder_workflow_id t))) h
      ≡ can_on_tenant env user_id TenantPermission.read t none none h
unfolding lit
placeholder-handshake env user_id t h u =
    handshake-template env user_id t (lit "phase-c-placeholder") h u refl refl

-- The subscription, what the server makes of it, and what is shown.
pub record Watches (env : Env) (u : WireUser) (ms : List Message) (h : Trace) : Type 0 where
  pub input : Input
  pub subscribed : (on_mount (some u)).subscribed ≡ some input
  pub checked :
      handshake env u.user_id input h
      ≡ can_on_tenant env u.user_id TenantPermission.read u.tenant_id none none h
  pub shown :
      derive_timeline (receive_all ms (on_mount (some u))).events
      ≡ summary (newest_first (data_of ms) [])

-- For a user of a tenant whose ID is a UUID: the route subscribes once, and the server takes that
-- subscription for the check for `read` on the user's own tenant, whatever SpiceDB answers; and whatever
-- data and errors come then, the timeline is the one that is said of the data, in the order of arrival.
pub on_mount-Watches :
    (env : Env) (u : WireUser) (ms : List Message) (h : Trace)
    → IsUuid u.tenant_id
    → Watches env u ms h
unfolding on_mount
on_mount-Watches env u ms h i = record {
  input = object (some (placeholder_workflow_id u.tenant_id));
  subscribed = refl;
  checked = placeholder-handshake env u.user_id u.tenant_id h i;
  shown =
      ap derive_timeline (receive_all-events ms (on_mount (some u)))
      ∙ derive_timeline-summary (data_of ms);
}
