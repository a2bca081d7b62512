-- ===== src/Frontend/Timeline.antt =====
-- frontend/src/components/WorkflowTimeline.tsx: the steps and the progress that are derived from the
-- events of a workflow. The map of steps keeps the order of first insertion, so it is a list.
pub mod History
pub mod Rows
pub mod Progress
use monok8s.Prelude.{
  ℕ, Bool, true, false, Option, none, some, List, [], ◌∷◌, Text, ◌==◌, filter, is_blank, length,
  if◌then◌else◌,
}

-- The phases of a workflow; "pending" is the absence of one.
pub data WorkflowPhase : Type 0 where
  started succeeded failed cancelled : WorkflowPhase

pub data StepPhase : Type 0 where
  started succeeded failed : StepPhase

-- WorkflowStatusEvent, as far as it is read: its `workflowType` first. A step has its name, phase,
-- timestamp and error.
pub data Event : Type 0 where
  workflow : Text → WorkflowPhase → Option Text → Event
  step : Text → Text → StepPhase → Text → Option Text → Event

pub record StepRow : Type 0 where
  pub name : Text
  pub phase : StepPhase
  pub started_at : Option Text
  pub ended_at : Option Text
  pub error : Option Text

-- The variables of the loop.
pub record Timeline : Type 0 where
  pub workflow_phase : Option WorkflowPhase
  pub workflow_type : Option Text
  pub workflow_error : Option Text
  pub steps : List StepRow

abbrev pub is_started : StepPhase → Bool
is_started StepPhase.started = true
is_started _ = false

abbrev pub is_succeeded : StepPhase → Bool
is_succeeded StepPhase.succeeded = true
is_succeeded _ = false

-- `if (evt.error) existing.error = evt.error`
abbrev pub error_or : Option Text → Option Text → Option Text
error_or none old = old
error_or (some e) old = if is_blank e then old else some e

abbrev pub new_row : Text → StepPhase → Text → Option Text → StepRow
new_row name phase timestamp error = record {
  name = name;
  phase = phase;
  started_at = if is_started phase then some timestamp else none;
  ended_at = if is_started phase then none else some timestamp;
  error = error;
}

abbrev pub updated : StepPhase → Text → Option Text → StepRow → StepRow
updated phase timestamp error row = record {
  name = row.name;
  phase = phase;
  started_at = if is_started phase then some timestamp else row.started_at;
  ended_at = if is_started phase then row.ended_at else some timestamp;
  error = error_or error row.error;
}

-- An event of a step: its row is updated in place, or added at the end.
unfoldable pub on_step : Text → StepPhase → Text → Option Text → List StepRow → List StepRow
on_step name phase timestamp error [] = new_row name phase timestamp error ∷ []
on_step name phase timestamp error (row ∷ rows) =
    let rest = on_step name phase timestamp error rows in
    if row.name == name then updated phase timestamp error row ∷ rows else row ∷ rest

-- `if (workflowType === null) workflowType = evt.workflowType`
abbrev pub first_type : Option Text → Text → Option Text
first_type none t = some t
first_type (some s) t = some s

-- One turn of the loop.
unfoldable pub on_event : Event → Timeline → Timeline
on_event (workflow t phase error) s = record s {
  workflow_phase = some phase;
  workflow_type = first_type s.workflow_type t;
  workflow_error = error;
}
on_event (step t name phase timestamp error) s = record s {
  workflow_type = first_type s.workflow_type t;
  steps = on_step name phase timestamp error s.steps;
}

abbrev pub no_events : Timeline
no_events = record {
  workflow_phase = none;
  workflow_type = none;
  workflow_error = none;
  steps = [];
}

unfoldable pub play : List Event → Timeline → Timeline
play [] s = s
play (e ∷ es) s = play es (on_event e s)

unfoldable pub derive_timeline : List Event → Timeline
derive_timeline es = play es no_events

abbrev pub succeeded_step_count : Timeline → ℕ
succeeded_step_count s = length (filter (λ row. is_succeeded row.phase) s.steps)

-- The argument is `Math.round((succeeded / steps) * 100)`, in doubles.
unfoldable pub progress_percent : (ℕ → ℕ → ℕ) → Timeline → ℕ
progress_percent percent s = elim s.steps [
  | [] ↦ 0
  | row ∷ rows ↦ percent (succeeded_step_count s) (length (row ∷ rows))
]
