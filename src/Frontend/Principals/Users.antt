-- ===== src/Frontend/Principals/Users.antt =====
-- The users tab of frontend/src/components/PrincipalAdmin.tsx, on the handlers of
-- frontend/src/routes/Principals.tsx. A disabled button does nothing.
pub mod Turns
use monok8s.Prelude.{Bool, true, false, Option, none, some, List, [], ◌∷◌, if◌then◌else◌}
use monok8s.Services.{Result, User}
use monok8s.Api.Router.{Mutation, suspend, reinstate}
use monok8s.Frontend.Principals.Handlers.{Signals, at_rest, begin, on_mutated}

-- `sent` is newest first.
pub record Users : Type 0 where
  pub selected : Option User
  pub actions : Signals
  pub sent : List Mutation

abbrev pub opened : Users
opened = record { selected = none; actions = at_rest; sent = [] }

pub data Event : Type 0 where
  manage : User → Event
  close click_suspend click_reinstate : Event
  mutated : Result (Unit {0}) → Event

-- The section's buttons are there while a user is selected.
abbrev pub clicked : (User → Mutation) → Option User → Users → Users
clicked mutation none s = s
clicked mutation (some u) s = record s { actions = begin; sent = mutation u ∷ s.sent }

-- handleSuspendUser and handleReinstateUser do not refetch.
unfoldable pub on_event : Event → Users → Users
on_event (manage u) s = if s.actions.pending then s else record s { selected = some u }
on_event close s = record s { selected = none }
on_event click_suspend s = if s.actions.pending then s else clicked (λ u. suspend u.id) s.selected s
on_event click_reinstate s =
    if s.actions.pending then s else clicked (λ u. reinstate u.id) s.selected s
on_event (mutated r) s = record s { actions = on_mutated false s.actions.stage r s.actions }

unfoldable pub run : List Event → Users → Users
run [] s = s
run (e ∷ es) s = run es (on_event e s)
