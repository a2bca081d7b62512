-- ===== src/Frontend/Principals/Groups/Retry.antt =====
-- What is left in the form of the groups tab when a creation fails.
use monok8s.Prelude.{◌≡◌, refl, false, some, [], ◌∷◌}
use monok8s.Services.{ok, throw, Thrown}
use monok8s.Services.Exec.{detail_of}
use monok8s.Api.Router.Schemas.{CreateGroupInput}
use monok8s.Frontend.Principals.{valid, validate_group_form}
use monok8s.Frontend.Principals.Handlers.{on_mutated, on_refetched}
use monok8s.Frontend.Principals.Groups.{
  Groups, submit, mutated, refetched, create, on_event, run, display_error,
}

-- The form is empty, the error shown is the server's, and the creation was asked for once.
pub record Emptied (s s' : Groups) (input : CreateGroupInput) (e : Thrown) : Type 0 where
  pub name : s'.name ≡ []
  pub parent : s'.parent ≡ []
  pub error : display_error s' ≡ some (detail_of e)
  pub sent : s'.sent ≡ create input ∷ s.sent

-- A creation that the server refuses empties the form's two inputs, as one that succeeds does: the input is
-- not kept for a retry. So does one whose refetch fails. The form was valid, and nothing was in flight.
pub submit-Emptied :
    (s : Groups) (input : CreateGroupInput) (e : Thrown)
    → s.actions.pending ≡ false
    → validate_group_form s.name s.parent ≡ valid input
    → Emptied s (run (submit ∷ mutated (throw e) ∷ []) s) input e
      × Emptied s (run (submit ∷ mutated (ok tt) ∷ refetched (throw e) ∷ []) s) input e
unfolding run on_event on_mutated on_refetched
submit-Emptied s input e p v =
    rw (p, v)
      (
        record { name = refl; parent = refl; error = refl; sent = refl },
        record { name = refl; parent = refl; error = refl; sent = refl },
      )
