-- ===== src/Frontend/Principals/Roles.antt =====
-- The roles tab of frontend/src/components/PrincipalAdmin.tsx, on the handlers of
-- frontend/src/routes/Principals.tsx. A disabled button or input does nothing.
pub mod Sent
use monok8s.Prelude.{Bool, true, false, Option, none, some, List, [], ◌∷◌, Text, lit, if◌then◌else◌}
use monok8s.Services.{Result}
use monok8s.Auth.Roles.{TenantRole, PrincipalType, user, principal_type_name}
use monok8s.Api.Principals.Roles.{Principal}
use monok8s.Api.Router.{Mutation, assign, unassign, change}
use monok8s.Frontend.Principals.{
  Validated, valid, invalid, validate_roles_form, validate_change_role_form,
}
use monok8s.Frontend.Principals.Handlers.{Signals, at_rest, begin, on_mutated, on_refetched}

-- `sent` is newest first. `expanded` is the role whose principals are shown.
pub record Roles : Type 0 where
  pub id : Text
  pub type : PrincipalType
  pub role : TenantRole
  pub old_role : TenantRole
  pub new_role : TenantRole
  pub expand_role : TenantRole
  pub client_error : Option Text
  pub selected : Option Principal
  pub expanded : Option TenantRole
  pub actions : Signals
  pub sent : List Mutation

abbrev pub opened : Roles
opened = record {
  id = [];
  type = user;
  role = TenantRole.viewer;
  old_role = TenantRole.viewer;
  new_role = TenantRole.member;
  expand_role = TenantRole.admin;
  client_error = none;
  selected = none;
  expanded = none;
  actions = at_rest;
  sent = [];
}

pub data Event : Type 0 where
  type_id : Text → Event
  pick_type : PrincipalType → Event
  pick_role pick_old pick_new pick_expand : TenantRole → Event
  lookup clear submit_assign submit_change expand expand_clear : Event
  click_unassign : TenantRole → Event
  -- The tab is left, and shown again: the component's own signals start anew.
  remount : Event
  mutated refetched : Result (Unit {0}) → Event

-- handleLookup
abbrev pub looked_up : Validated Principal → Roles → Roles
looked_up (invalid e) s = record s { client_error = some e; selected = none }
looked_up (valid p) s = record s { client_error = none; selected = some p }

-- A mutation is sent, and its handler waits.
abbrev pub send : Mutation → Roles → Roles
send m s = record s { client_error = none; actions = begin; sent = m ∷ s.sent }

-- handleAssign
abbrev pub assigned : Option Principal → Roles → Roles
assigned none s = record s { client_error = some (lit "Select a principal first") }
assigned (some p) s = send (assign p s.role) s

-- handleUnassign
abbrev pub unassigned : Option Principal → TenantRole → Roles → Roles
unassigned none role s = record s { client_error = none }
unassigned (some p) role s = send (unassign p role) s

-- handleChange
abbrev pub changed_to : Principal → Validated (TenantRole × TenantRole) → Roles → Roles
changed_to p (invalid e) s = record s { client_error = some e }
changed_to p (valid (old_role, new_role)) s = send (change p old_role new_role) s

abbrev pub changed : Option Principal → Roles → Roles
changed none s = record s { client_error = some (lit "Select a principal first") }
changed (some p) s = changed_to p (validate_change_role_form s.old_role s.new_role) s

-- What a button or an input of the first form does, where a mutation in flight disables it.
abbrev pub unless_pending : Roles → Roles → Roles
unless_pending s t = if s.actions.pending then s else t

unfoldable pub on_event : Event → Roles → Roles
on_event (type_id t) s = unless_pending s (record s { id = t })
on_event (pick_type t) s = unless_pending s (record s { type = t })
on_event (pick_role r) s = unless_pending s (record s { role = r })
on_event (pick_old r) s = unless_pending s (record s { old_role = r })
on_event (pick_new r) s = unless_pending s (record s { new_role = r })
on_event (pick_expand r) s = record s { expand_role = r }
on_event lookup s =
    unless_pending s (looked_up (validate_roles_form s.id (lit (principal_type_name s.type))) s)
on_event clear s =
    unless_pending s (record s { client_error = none; id = []; type = user; selected = none })
on_event submit_assign s = unless_pending s (assigned s.selected s)
on_event submit_change s = unless_pending s (changed s.selected s)
on_event expand s = record s { expanded = some s.expand_role }
on_event expand_clear s = record s { expanded = none }
on_event (click_unassign role) s = unless_pending s (unassigned s.selected role s)
on_event remount s = record s {
  id = [];
  type = user;
  role = TenantRole.viewer;
  old_role = TenantRole.viewer;
  new_role = TenantRole.member;
  expand_role = TenantRole.admin;
  client_error = none;
}
on_event (mutated r) s = record s { actions = on_mutated true s.actions.stage r s.actions }
on_event (refetched r) s = record s { actions = on_refetched s.actions.stage r s.actions }

unfoldable pub run : List Event → Roles → Roles
run [] s = s
run (e ∷ es) s = run es (on_event e s)
