-- ===== src/Frontend/Principals/Groups/Sent.antt =====
-- Every request of the groups tab is one that the server's schemas accept, and a section never has two
-- mutations in flight.
use monok8s.Prelude.{
  ◌≡◌, refl, Bool, true, false, All, Option, none, some, List, [], ◌∷◌, Text, if◌then◌else◌,
}
use monok8s.Services.{Group}
use monok8s.Api.Router.{Mutation, add_member, remove_member, accepts}
use monok8s.Api.Router.Schemas.{
  CreateGroupInput, accepts_create_group, accepts_id, accepts_mutation,
}
use monok8s.Frontend.Principals.{
  Validated, valid, invalid, matches_uuid, validate_group_form, validate_member_user_id,
}
use monok8s.Frontend.Principals.Forms.{
  validate_group_form-accepted, validate_member_user_id-accepted,
}
use monok8s.Frontend.Principals.Handlers.Tracking.{Tracks, on_mutated-Tracks, on_refetched-Tracks}
use monok8s.Frontend.Principals.Handlers.{
  Stage, idle, mutating, refetching, Signals, on_mutated, on_refetched, begin,
}
use monok8s.Frontend.Principals.Groups.{
  Request, create, delete, member, Groups, opened, Event, type_name, type_parent, type_user, submit,
  close, add, remove, delete_row, pick, remount, mutated, refetched, member_mutated,
  member_refetched, picked, submitted, dispatched, ended, member_ended, with_actions, with_members,
  on_event, run,
}

module _ (is_uuid : Text → Bool)
    (uuids : (t : Text) → matches_uuid t ≡ true → is_uuid t ≡ true) where
  abbrev pub IsAccepted : Request → Type 0
  IsAccepted (create input) = accepts_create_group is_uuid input ≡ true
  IsAccepted (delete id) = accepts_id is_uuid id ≡ true
  IsAccepted (member m) = accepts_mutation is_uuid m ≡ true

  abbrev pub HasUuid : Option Group → Type 0
  HasUuid none = Unit
  HasUuid (some g) = is_uuid g.id ≡ true

  -- The rows on which the user clicks have IDs that are UUIDs.
  abbrev pub IsOfRows : Event → Type 0
  IsOfRows (pick g) = is_uuid g.id ≡ true
  IsOfRows (delete_row id) = is_uuid id ≡ true
  IsOfRows _ = Unit

  pub record Sound (actions members : Signals) (selected : Option Group) (sent : List Request)
      : Type 0 where
    pub actions_tracked : Tracks actions
    pub members_tracked : Tracks members
    pub selected_row : HasUuid selected
    pub accepted : All IsAccepted sent

  abbrev pub IsSound : Groups → Type 0
  IsSound s = Sound s.actions s.members s.selected s.sent

  guarded : (b : Bool) (s t : Groups) → IsSound s → IsSound t → IsSound (if b then s else t)
  guarded true s t i j = i
  guarded false s t i j = j

  submitted-IsSound :
      (r : Validated CreateGroupInput) (s : Groups)
      → ((input : CreateGroupInput) → r ≡ valid input → accepts_create_group is_uuid input ≡ true)
      → IsSound s
      → IsSound (submitted r s)
  submitted-IsSound (valid input) s h i = record {
    actions_tracked = refl;
    members_tracked = i.members_tracked;
    selected_row = i.selected_row;
    accepted = (h input refl, i.accepted);
  }
  submitted-IsSound (invalid e) s h i = i

  dispatched-IsSound :
      (mutation : Text → Text → Mutation) (r : Validated Text) (o : Option Group) (s : Groups)
      → ((g u : Text)
          → is_uuid g ≡ true
          → is_uuid u ≡ true
          → accepts_mutation is_uuid (mutation g u) ≡ true)
      → ((id : Text) → r ≡ valid id → is_uuid id ≡ true)
      → HasUuid o
      → IsSound s
      → IsSound (dispatched mutation o r s)
  dispatched-IsSound mutation r none s m h u i = i
  dispatched-IsSound mutation (invalid e) (some g) s m h u i = i
  dispatched-IsSound mutation (valid id) (some g) s m h u i = record {
    actions_tracked = i.actions_tracked;
    members_tracked = refl;
    selected_row = i.selected_row;
    accepted = (m g.id id u (h id refl), i.accepted);
  }

  ended-IsSound : (stage : Stage) (s : Groups) → IsSound s → IsSound (ended stage s)
  ended-IsSound idle s i = i
  ended-IsSound mutating s i = i
  ended-IsSound refetching s i = i

  member_ended-IsSound : (stage : Stage) (s : Groups) → IsSound s → IsSound (member_ended stage s)
  member_ended-IsSound idle s i = i
  member_ended-IsSound mutating s i = i
  member_ended-IsSound refetching s i = i

  with_actions-IsSound :
      (a : Signals) (s : Groups) → Tracks a → IsSound s → IsSound (with_actions a s)
  with_actions-IsSound a s t i =
      ended-IsSound a.stage (record s { actions = a })
        (record {
          actions_tracked = t;
          members_tracked = i.members_tracked;
          selected_row = i.selected_row;
          accepted = i.accepted;
        })

  with_members-IsSound :
      (a : Signals) (s : Groups) → Tracks a → IsSound s → IsSound (with_members a s)
  with_members-IsSound a s t i =
      member_ended-IsSound a.stage (record s { members = a })
        (record {
          actions_tracked = i.actions_tracked;
          members_tracked = t;
          selected_row = i.selected_row;
          accepted = i.accepted;
        })

  add-accepted :
      (g u : Text)
      → is_uuid g ≡ true
      → is_uuid u ≡ true
      → accepts_mutation is_uuid (add_member g u) ≡ true
  unfolding accepts_mutation accepts
  add-accepted g u p q = rw (p, q) refl

  remove-accepted :
      (g u : Text)
      → is_uuid g ≡ true
      → is_uuid u ≡ true
      → accepts_mutation is_uuid (remove_member g u) ≡ true
  unfolding accepts_mutation accepts
  remove-accepted g u p q = rw (p, q) refl

  group_form :
      (s : Groups) (input : CreateGroupInput)
      → validate_group_form s.name s.parent ≡ valid input
      → accepts_create_group is_uuid input ≡ true
  group_form s = validate_group_form-accepted is_uuid uuids s.name s.parent

  member_form :
      (s : Groups) (id : Text) → validate_member_user_id s.user_id ≡ valid id → is_uuid id ≡ true
  member_form s = validate_member_user_id-accepted is_uuid uuids s.user_id

  on_event-IsSound : (e : Event) (s : Groups) → IsOfRows e → IsSound s → IsSound (on_event e s)
  unfolding on_event
  on_event-IsSound (type_name t) s r i = guarded s.actions.pending s (record s { name = t }) i i
  on_event-IsSound (type_parent t) s r i = guarded s.actions.pending s (record s { parent = t }) i i
  on_event-IsSound (type_user t) s r i = guarded s.members.pending s (record s { user_id = t }) i i
  on_event-IsSound submit s r i =
      let form = validate_group_form s.name s.parent in
      guarded s.actions.pending s (submitted form s) i (submitted-IsSound form s (group_form s) i)
  on_event-IsSound (delete_row id) s r i =
      guarded s.actions.pending s
        (record s { client_error = none; actions = begin; sent = delete id ∷ s.sent }) i
        (record {
          actions_tracked = refl;
          members_tracked = i.members_tracked;
          selected_row = i.selected_row;
          accepted = (r, i.accepted);
        })
  on_event-IsSound (pick g) s r i =
      guarded s.actions.pending s (if s.members.pending then s else picked g s) i (
        guarded s.members.pending s (picked g s) i (record {
          actions_tracked = i.actions_tracked;
          members_tracked = i.members_tracked;
          selected_row = r;
          accepted = i.accepted;
        }))
  on_event-IsSound close s r i =
      guarded s.members.pending s (record s { selected = none }) i
        (record {
          actions_tracked = i.actions_tracked;
          members_tracked = i.members_tracked;
          selected_row = tt;
          accepted = i.accepted;
        })
  on_event-IsSound add s r i =
      let form = validate_member_user_id s.user_id in
      guarded s.members.pending s (dispatched add_member s.selected form s) i (
        dispatched-IsSound add_member form s.selected s add-accepted (member_form s) i.selected_row
          i)
  on_event-IsSound remove s r i =
      let form = validate_member_user_id s.user_id in
      guarded s.members.pending s (dispatched remove_member s.selected form s) i (
        dispatched-IsSound remove_member form s.selected s remove-accepted (member_form s)
          i.selected_row i)
  on_event-IsSound remount s r i = i
  on_event-IsSound (mutated a) s r i =
      with_actions-IsSound (on_mutated true s.actions.stage a s.actions) s
        (on_mutated-Tracks true s.actions.stage a s.actions refl i.actions_tracked) i
  on_event-IsSound (refetched a) s r i =
      with_actions-IsSound (on_refetched s.actions.stage a s.actions) s
        (on_refetched-Tracks s.actions.stage a s.actions refl i.actions_tracked) i
  on_event-IsSound (member_mutated a) s r i =
      with_members-IsSound (on_mutated true s.members.stage a s.members) s
        (on_mutated-Tracks true s.members.stage a s.members refl i.members_tracked) i
  on_event-IsSound (member_refetched a) s r i =
      with_members-IsSound (on_refetched s.members.stage a s.members) s
        (on_refetched-Tracks s.members.stage a s.members refl i.members_tracked) i

  run-keeps : (es : List Event) (s : Groups) → All IsOfRows es → IsSound s → IsSound (run es s)
  unfolding run
  run-keeps [] s r i = i
  run-keeps (e ∷ es) s r i = run-keeps es (on_event e s) r.1 (on_event-IsSound e s r.0 i)

  -- Whatever the user types and clicks, however the server's answers fall among that: every request that
  -- the groups tab has sent is one that the schemas of the server accept, and each of its two flags
  -- `pending` is set just while a mutation or the refetch after it is in flight. The rows' IDs are UUIDs,
  -- and zod's test takes every text that the client's expression takes.
  pub run-IsSound : (es : List Event) → All IsOfRows es → IsSound (run es opened)
  run-IsSound es r =
      run-keeps es opened r (record {
        actions_tracked = refl;
        members_tracked = refl;
        selected_row = tt;
        accepted = tt;
      })
