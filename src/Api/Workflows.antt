-- ===== src/Api/Workflows.antt =====
-- What the handlers of apps/api/src/handlers share: a fresh identifier, and starting a workflow on
-- the "onboarding" queue. `deps.newId` is a test seam; the model takes `randomUUID`.
pub mod Launches
use monok8s.Prelude.{String, Text, List}
use monok8s.Services.{Env, StartRequest, start, random_uuid, ok}
use monok8s.Services.Exec.{Exec, perform}

module _ (env : Env) where
  abbrev pub new_id : Exec Text
  new_id = perform (λ h. ok (env.on_uuid h)) random_uuid

  abbrev pub start_workflow : StartRequest → Exec (Unit {0})
  start_workflow req = perform (λ h. env.on_start h req) (start req)

abbrev pub onboarding : String → Text → List (String × Text) → StartRequest
onboarding workflow_type workflow_id args = record {
  workflow_type = workflow_type;
  task_queue = "onboarding";
  workflow_id = workflow_id;
  args = args;
}
