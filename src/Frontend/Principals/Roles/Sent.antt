-- ===== src/Frontend/Principals/Roles/Sent.antt =====
-- Every request of the roles tab is one that the server's schemas accept, but for the owner role of a
-- service account, which the forms offer and the server refuses.
use monok8s.Prelude.{
  ◌≡◌, refl, inl, inr, Bool, true, false, Bool-cases, not, ◌&&◌, All, Option, none, some, List, [],
  ◌∷◌, Text, lit, if◌then◌else◌,
}
use monok8s.Auth.Roles.{TenantRole, user, principal_type_name}
use monok8s.Api.Principals.Roles.{Principal}
use monok8s.Api.Router.{
  Mutation, assign, unassign, change, accepts, is_owner, is_account, same_role,
}
use monok8s.Api.Router.Schemas.{accepts_mutation, accepts_principal}
use monok8s.Frontend.Principals.{
  Validated, valid, invalid, matches_uuid, validate_roles_form, validate_change_role_form,
}
use monok8s.Frontend.Principals.Forms.{validate_roles_form-accepted}
use monok8s.Frontend.Principals.Handlers.Tracking.{Tracks, on_mutated-Tracks, on_refetched-Tracks}
use monok8s.Frontend.Principals.Handlers.{Signals}
use monok8s.Frontend.Principals.Roles.{
  Roles, opened, Event, type_id, pick_type, pick_role, pick_old, pick_new, pick_expand, lookup,
  clear, submit_assign, submit_change, expand, expand_clear, click_unassign, remount, mutated,
  refetched, looked_up, send, assigned, unassigned, changed_to, changed, on_event, run,
}

-- The request makes a service account the owner, or no longer the owner.
abbrev pub owner_of_account : Mutation → Bool
owner_of_account (assign p role) = is_owner role && is_account p.type
owner_of_account (unassign p role) = is_owner role && is_account p.type
owner_of_account (change p old_role new_role) = is_owner new_role && is_account p.type
owner_of_account _ = false

module _ (is_uuid : Text → Bool)
    (uuids : (t : Text) → matches_uuid t ≡ true → is_uuid t ≡ true) where
  -- The server accepts the request just where it is not about a service account as owner.
  abbrev pub IsJudged : Mutation → Type 0
  IsJudged m = accepts_mutation is_uuid m ≡ not (owner_of_account m)

  abbrev pub HasUuid : Option Principal → Type 0
  HasUuid none = Unit
  HasUuid (some p) = accepts_principal is_uuid p ≡ true

  pub record Sound (actions : Signals) (selected : Option Principal) (sent : List Mutation)
      : Type 0 where
    pub tracked : Tracks actions
    pub picked : HasUuid selected
    pub judged : All IsJudged sent

  abbrev pub IsSound : Roles → Type 0
  IsSound s = Sound s.actions s.selected s.sent

  guarded : (b : Bool) (s t : Roles) → IsSound s → IsSound t → IsSound (if b then s else t)
  guarded true s t i j = i
  guarded false s t i j = j

  looked_up-IsSound :
      (r : Validated Principal) (s : Roles)
      → ((p : Principal) → r ≡ valid p → accepts_principal is_uuid p ≡ true)
      → IsSound s
      → IsSound (looked_up r s)
  looked_up-IsSound (invalid e) s h i = record {
    tracked = i.tracked;
    picked = tt;
    judged = i.judged;
  }
  looked_up-IsSound (valid p) s h i = record {
    tracked = i.tracked;
    picked = h p refl;
    judged = i.judged;
  }

  send-IsSound : (m : Mutation) (s : Roles) → IsJudged m → IsSound s → IsSound (send m s)
  send-IsSound m s j i = record { tracked = refl; picked = i.picked; judged = (j, i.judged) }

  assigned-IsSound :
      (o : Option Principal) (s : Roles) → HasUuid o → IsSound s → IsSound (assigned o s)
  unfolding accepts_mutation accepts
  assigned-IsSound none s u i = i
  assigned-IsSound (some p) s u i = send-IsSound (assign p s.role) s (rw u refl) i

  unassigned-IsSound :
      (o : Option Principal) (role : TenantRole) (s : Roles)
      → HasUuid o
      → IsSound s
      → IsSound (unassigned o role s)
  unfolding accepts_mutation accepts
  unassigned-IsSound none role s u i = i
  unassigned-IsSound (some p) role s u i = send-IsSound (unassign p role) s (rw u refl) i

  changed_to-IsSound :
      (p : Principal) (a b : TenantRole) (s : Roles)
      → accepts_principal is_uuid p ≡ true
      → IsSound s
      → IsSound (changed_to p (validate_change_role_form a b) s)
  unfolding validate_change_role_form accepts_mutation accepts
  changed_to-IsSound p a b s u i = elim (Bool-cases (same_role a b)) [
    | inl e ↦ rw e i
    | inr e ↦ rw e (send-IsSound (change p a b) s (rw (u, e) refl) i)
  ]

  changed-IsSound :
      (o : Option Principal) (s : Roles) → HasUuid o → IsSound s → IsSound (changed o s)
  changed-IsSound none s u i = i
  changed-IsSound (some p) s u i = changed_to-IsSound p s.old_role s.new_role s u i

  on_event-IsSound : (e : Event) (s : Roles) → IsSound s → IsSound (on_event e s)
  unfolding on_event
  on_event-IsSound (type_id t) s i = guarded s.actions.pending s (record s { id = t }) i i
  on_event-IsSound (pick_type t) s i = guarded s.actions.pending s (record s { type = t }) i i
  on_event-IsSound (pick_role r) s i = guarded s.actions.pending s (record s { role = r }) i i
  on_event-IsSound (pick_old r) s i = guarded s.actions.pending s (record s { old_role = r }) i i
  on_event-IsSound (pick_new r) s i = guarded s.actions.pending s (record s { new_role = r }) i i
  on_event-IsSound (pick_expand r) s i = i
  on_event-IsSound lookup s i =
      let form = validate_roles_form s.id (lit (principal_type_name s.type)) in
      guarded s.actions.pending s (looked_up form s) i (
        looked_up-IsSound form s
          (validate_roles_form-accepted is_uuid uuids s.id (lit (principal_type_name s.type))) i)
  on_event-IsSound clear s i =
      guarded s.actions.pending s
        (record s { client_error = none; id = []; type = user; selected = none }) i
        (record { tracked = i.tracked; picked = tt; judged = i.judged })
  on_event-IsSound submit_assign s i =
      guarded s.actions.pending s (assigned s.selected s) i
        (assigned-IsSound s.selected s i.picked i)
  on_event-IsSound submit_change s i =
      guarded s.actions.pending s (changed s.selected s) i (changed-IsSound s.selected s i.picked i)
  on_event-IsSound expand s i = i
  on_event-IsSound expand_clear s i = i
  on_event-IsSound (click_unassign r) s i =
      guarded s.actions.pending s (unassigned s.selected r s) i
        (unassigned-IsSound s.selected r s i.picked i)
  on_event-IsSound remount s i = i
  on_event-IsSound (mutated a) s i = record {
    tracked = on_mutated-Tracks true s.actions.stage a s.actions refl i.tracked;
    picked = i.picked;
    judged = i.judged;
  }
  on_event-IsSound (refetched a) s i = record {
    tracked = on_refetched-Tracks s.actions.stage a s.actions refl i.tracked;
    picked = i.picked;
    judged = i.judged;
  }

  run-keeps : (es : List Event) (s : Roles) → IsSound s → IsSound (run es s)
  unfolding run
  run-keeps [] s i = i
  run-keeps (e ∷ es) s i = run-keeps es (on_event e s) (on_event-IsSound e s i)

  -- Whatever the user types and clicks, however the server's answers fall among that: of the requests that
  -- the roles tab has sent, the server's schemas accept each one, but for those about a service account as
  -- owner, which they refuse; and the flag `pending` is set just while a mutation or the refetch after it
  -- is in flight. zod's test of UUIDs takes every text that the client's expression takes.
  pub run-IsJudged : (es : List Event) → IsSound (run es opened)
  run-IsJudged es = run-keeps es opened (record { tracked = refl; picked = tt; judged = tt })
