-- ===== src/Frontend/Timeline/History.antt =====
-- What a timeline shows, said of the events received, the newest first, and of no loop.
use monok8s.Prelude.{
  Bool, true, false, not, ◌&&◌, Option, none, some, List, [], ◌∷◌, ◌++◌, Text, ◌==◌, any, map,
  or_else, if◌then◌else◌,
}
use monok8s.Frontend.Timeline.{
  WorkflowPhase, StepPhase, Event, workflow, step, StepRow, Timeline, is_started, error_or,
}

-- The steps seen, in the order of their first events.
abbrev pub seen : Text → List Text → Bool
seen name names = any (λ m. m == name) names

abbrev pub add_name : Text → List Text → List Text
add_name name names = if seen name names then names else names ++ (name ∷ [])

unfoldable pub step_names : List Event → List Text
step_names [] = []
step_names (workflow _ _ _ ∷ h) = step_names h
step_names (step _ name _ _ _ ∷ h) = let before = step_names h in add_name name before

abbrev pub agrees : Bool → Bool → Bool
agrees true b = b
agrees false b = not b

module _ (m : Text) where
  -- The phase of the step's last event.
  unfoldable pub last_phase : List Event → StepPhase
  last_phase [] = StepPhase.started
  last_phase (workflow _ _ _ ∷ h) = last_phase h
  last_phase (step _ name phase _ _ ∷ h) =
      let before = last_phase h in if m == name then phase else before

  -- The timestamp of its last event that says "started", or of the last that does not.
  unfoldable pub last_time : Bool → List Event → Option Text
  last_time start [] = none
  last_time start (workflow _ _ _ ∷ h) = last_time start h
  last_time start (step _ name phase timestamp _ ∷ h) =
      let before = last_time start h in
      if m == name && agrees (is_started phase) start then some timestamp else before

  -- The last error of the step that is a text and not empty; failing that, the error of its first event.
  unfoldable pub last_error : List Event → Option Text
  last_error [] = none
  last_error (workflow _ _ _ ∷ h) = last_error h
  last_error (step _ name _ _ error ∷ h) =
      let before = last_error h in
      if m == name then (if seen m (step_names h) then error_or error before else error) else before

abbrev pub row_of : List Event → Text → StepRow
row_of h m = record {
  name = m;
  phase = last_phase m h;
  started_at = last_time m true h;
  ended_at = last_time m false h;
  error = last_error m h;
}

-- The phase and the error of the last event of the workflow itself.
unfoldable pub last_workflow : List Event → Option (WorkflowPhase × Option Text)
last_workflow [] = none
last_workflow (workflow _ phase error ∷ h) = some (phase, error)
last_workflow (step _ _ _ _ _ ∷ h) = last_workflow h

abbrev pub phase_of : Option (WorkflowPhase × Option Text) → Option WorkflowPhase
phase_of none = none
phase_of (some (phase, _)) = some phase

abbrev pub error_of : Option (WorkflowPhase × Option Text) → Option Text
error_of none = none
error_of (some (_, error)) = error

abbrev pub type_of : Event → Text
type_of (workflow t _ _) = t
type_of (step t _ _ _ _) = t

-- The type that the first event names.
unfoldable pub named_type : List Event → Option Text
named_type [] = none
named_type (e ∷ h) = some (or_else (named_type h) (type_of e))

abbrev pub summary : List Event → Timeline
summary h = record {
  workflow_phase = phase_of (last_workflow h);
  workflow_type = named_type h;
  workflow_error = error_of (last_workflow h);
  steps = map (row_of h) (step_names h);
}

-- The events, the newest first, on top of earlier ones.
abbrev pub newest_first : List Event → List Event → List Event
newest_first [] h = h
newest_first (e ∷ es) h = newest_first es (e ∷ h)
