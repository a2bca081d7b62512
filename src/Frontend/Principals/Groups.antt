-- ===== src/Frontend/Principals/Groups.antt =====
-- The groups tab of frontend/src/components/PrincipalAdmin.tsx, with its section for members, on the
-- handlers of frontend/src/routes/Principals.tsx. A disabled button or input does nothing. `pick` opens
-- the section for a group; the section is mounted anew only if none was open.
pub mod Sent
pub mod Retry
use monok8s.Prelude.{
  Bool, true, false, Option, none, some, List, [], ◌∷◌, Text, is_some, if◌then◌else◌,
}
use monok8s.Services.{Result, Group}
use monok8s.Api.Router.{Mutation, add_member, remove_member}
use monok8s.Api.Router.Schemas.{CreateGroupInput}
use monok8s.Frontend.Principals.{
  Validated, valid, invalid, validate_group_form, validate_member_user_id,
}
use monok8s.Frontend.Principals.Handlers.{
  Stage, idle, Signals, at_rest, begin, on_mutated, on_refetched,
}

-- What the client is asked to send.
pub data Request : Type 0 where
  create : CreateGroupInput → Request
  delete : Text → Request
  member : Mutation → Request

-- `clears` says that the handler in flight clears the inputs at its end. `sent` is newest first.
pub record Groups : Type 0 where
  pub name : Text
  pub parent : Text
  pub client_error : Option Text
  pub actions : Signals
  pub clears : Bool
  pub selected : Option Group
  pub user_id : Text
  pub member_error : Option Text
  pub members : Signals
  pub member_clears : Bool
  pub sent : List Request

abbrev pub opened : Groups
opened = record {
  name = [];
  parent = [];
  client_error = none;
  actions = at_rest;
  clears = false;
  selected = none;
  user_id = [];
  member_error = none;
  members = at_rest;
  member_clears = false;
  sent = [];
}

pub data Event : Type 0 where
  type_name type_parent type_user : Text → Event
  submit close add remove : Event
  delete_row : Text → Event
  pick : Group → Event
  -- The tab is left, and shown again: the component's own signals start anew.
  remount : Event
  mutated refetched member_mutated member_refetched : Result (Unit {0}) → Event

-- handleCreate, up to its `await`
abbrev pub submitted : Validated CreateGroupInput → Groups → Groups
submitted (invalid e) s = record s { client_error = some e }
submitted (valid input) s = record s {
  client_error = none;
  actions = begin;
  clears = true;
  sent = create input ∷ s.sent;
}

-- dispatch, up to its `await`; the group is the selected one.
abbrev pub dispatched : (Text → Text → Mutation) → Option Group → Validated Text → Groups → Groups
dispatched mutation none r s = s
dispatched mutation (some g) (invalid e) s = record s { member_error = some e }
dispatched mutation (some g) (valid id) s = record s {
  member_error = none;
  members = begin;
  member_clears = true;
  sent = member (mutation g.id id) ∷ s.sent;
}

-- What follows the `await` of handleCreate, once the handler of the route has ended: it never throws.
abbrev pub ended : Stage → Groups → Groups
ended idle s = record s {
  name = if s.clears then [] else s.name;
  parent = if s.clears then [] else s.parent;
  clears = false;
}
ended _ s = s

abbrev pub member_ended : Stage → Groups → Groups
member_ended idle s = record s {
  user_id = if s.member_clears then [] else s.user_id;
  member_clears = false;
}
member_ended _ s = s

abbrev pub with_actions : Signals → Groups → Groups
with_actions a s = ended a.stage (record s { actions = a })

abbrev pub with_members : Signals → Groups → Groups
with_members a s = member_ended a.stage (record s { members = a })

-- A section that was not open is mounted with fresh signals.
abbrev pub picked : Group → Groups → Groups
picked g s = record s {
  selected = some g;
  user_id = if is_some s.selected then s.user_id else [];
  member_error = if is_some s.selected then s.member_error else none;
  member_clears = if is_some s.selected then s.member_clears else false;
}

unfoldable pub on_event : Event → Groups → Groups
on_event (type_name t) s = if s.actions.pending then s else record s { name = t }
on_event (type_parent t) s = if s.actions.pending then s else record s { parent = t }
on_event (type_user t) s = if s.members.pending then s else record s { user_id = t }
on_event submit s =
    if s.actions.pending then s else submitted (validate_group_form s.name s.parent) s
on_event (delete_row id) s =
    if s.actions.pending
    then s
    else record s { client_error = none; actions = begin; sent = delete id ∷ s.sent }
on_event (pick g) s = if s.actions.pending then s else if s.members.pending then s else picked g s
on_event close s = if s.members.pending then s else record s { selected = none }
on_event add s =
    if s.members.pending
    then s
    else dispatched add_member s.selected (validate_member_user_id s.user_id) s
on_event remove s =
    if s.members.pending
    then s
    else dispatched remove_member s.selected (validate_member_user_id s.user_id) s
on_event remount s = record s {
  name = [];
  parent = [];
  client_error = none;
  clears = false;
  user_id = [];
  member_error = none;
  member_clears = false;
}
on_event (mutated r) s = with_actions (on_mutated true s.actions.stage r s.actions) s
on_event (refetched r) s = with_actions (on_refetched s.actions.stage r s.actions) s
on_event (member_mutated r) s = with_members (on_mutated true s.members.stage r s.members) s
on_event (member_refetched r) s = with_members (on_refetched s.members.stage r s.members) s

unfoldable pub run : List Event → Groups → Groups
run [] s = s
run (e ∷ es) s = run es (on_event e s)

-- What the tab shows: the component's own error before the route's.
abbrev pub display_error : Groups → Option Text
display_error s = elim s.client_error [ some e ↦ some e | none ↦ s.actions.error ]
