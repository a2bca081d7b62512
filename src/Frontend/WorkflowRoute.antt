-- ===== src/Frontend/WorkflowRoute.antt =====
-- frontend/src/routes/Workflows.tsx: what the route subscribes to, and what it keeps of the answers.
pub mod Watching
use monok8s.Prelude.{Bool, Option, none, some, List, [], ◌∷◌, ◌++◌, Text, lit}
use monok8s.Services.{Thrown}
use monok8s.Services.Exec.{detail_of}
use monok8s.Api.Login.{WireUser}
use monok8s.Api.Events.Requests.{Input, object}
use monok8s.Frontend.Timeline.{Event, Timeline, derive_timeline}

abbrev pub placeholder_workflow_id : Text → Text
placeholder_workflow_id tenant_id = lit "tnt-" ++ (tenant_id ++ lit "-phase-c-placeholder")

-- The signals; the empty ID shows "Loading…". `subscribed` is the input of the subscription.
pub record Workflows : Type 0 where
  pub events : List Event
  pub error : Option Text
  pub workflow_id : Text
  pub subscribed : Option Input

-- onMount: without a user nothing happens.
unfoldable pub on_mount : Option WireUser → Workflows
on_mount none = record { events = []; error = none; workflow_id = []; subscribed = none }
on_mount (some u) = record {
  events = [];
  error = none;
  workflow_id = placeholder_workflow_id u.tenant_id;
  subscribed = some (object (some (placeholder_workflow_id u.tenant_id)));
}

pub data Message : Type 0 where
  on_data : Event → Message
  on_error : Text → Message

unfoldable pub receive : Message → Workflows → Workflows
receive (on_data e) s = record s { events = s.events ++ (e ∷ []) }
receive (on_error m) s = record s { error = some m }

unfoldable pub receive_all : List Message → Workflows → Workflows
receive_all [] s = s
receive_all (m ∷ ms) s = receive_all ms (receive m s)
