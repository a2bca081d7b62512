-- ===== src/Api/Principals/Suspension/Guards.antt =====
-- How the guards of owners run, when SpiceDB answers by schema.zed.
use monok8s.Prelude.{
  ◌≡◌, refl, Bool, not, ◌&&◌, Option, none, some, List, [], ◌∷◌, map, Text, lit, ◌==◌, filter, all,
  is_empty, arith, Bool-cases, inl, inr, if◌then◌else◌,
}
use monok8s.Services.{Env, Trace, Result, ok, throw, Thrown, check_permission, lookup_subjects}
use monok8s.Services.Exec.{all_of}
use monok8s.Auth.Roles.{user}
use monok8s.Services.Traces.{starts}
use monok8s.Auth.Spice.{obj, check_relation, is_platform_admin, lookup_subjects_of, held_subjects}
use monok8s.Api.Principals.Suspension.Answers.{
  View, Answers, transfers, hits, user_check, owner_lookup,
}
use monok8s.Api.Principals.Suspension.{
  cannot_govern, target_is_owner, last_owner, last_unsuspended_owner, assert_can_govern_owner,
  may_act, suspended_probe, some_unsuspended, assert_not_last_owner,
}

held_subjects-hits : (ids : List Text) → held_subjects (hits ids) ≡ ids
held_subjects-hits [] = refl
held_subjects-hits (id ∷ ids) = rw (held_subjects-hits ids)

is_empty-unsuspended :
    (f : Text → Bool) (ids : List Text) → is_empty (filter (λ b. not b) (map f ids)) ≡ all f ids
is_empty-unsuspended f [] = refl
is_empty-unsuspended f (id ∷ ids) = ground (arith, is_empty-unsuspended f ids)

-- The target can transfer the tenant, and the actor neither can nor administrates the platform.
abbrev pub is_protected : View → Text → Text → Bool
is_protected v actor target =
    transfers v target && not (transfers v actor) && not (v.facts actor).platform_admin

abbrev pub others : View → Text → List Text
others v target = filter (λ id. not (id == target)) v.owners

-- What the second guard throws, if it throws.
abbrev pub owner_verdict : View → Text → Option Thrown
owner_verdict v target =
    if is_empty (others v target)
    then some last_owner
    else if all (λ id. (v.facts id).suspended) (others v target)
    then some last_unsuspended_owner
    else none

-- What the two guards throw together, if they throw.
abbrev pub verdict : View → Text → Text → Option Thrown
verdict v actor target =
    if is_protected v actor target then some cannot_govern else owner_verdict v target

abbrev pub outcome : Option Thrown → Result (Unit {0})
outcome none = ok tt
outcome (some e) = throw e

module _ (env : Env) (t : Text) (v : View) (a : Answers env t v) where
  abbrev transfer_call : Text → Trace → Trace
  transfer_call u h = check_permission (user_check "tenant" t "transfer_ownership" u) ∷ h

  abbrev admin_call : Text → Trace → Trace
  admin_call u h = check_permission (user_check "platform" (lit "monok8s") "administrate" u) ∷ h

  abbrev suspended_call : Text → Trace → Trace
  suspended_call u h = check_permission (user_check "tenant" t "suspended" u) ∷ h

  transfer_answer :
      (u : Text) (h : Trace)
      → target_is_owner env t u h
        ≡ (ok (transfers v u), check_permission (user_check "tenant" t "transfer_ownership" u) ∷ h)
  unfolding target_is_owner check_relation
  transfer_answer u h = rw (a.on_transfer h u) (ground arith)

  admin_answer :
      (u : Text) (h : Trace)
      → is_platform_admin env u h ≡ (
        ok (v.facts u).platform_admin,
        check_permission (user_check "platform" (lit "monok8s") "administrate" u) ∷ h,
      )
  unfolding is_platform_admin
  admin_answer u h = rw (a.on_administrate h u) (ground arith)

  suspended_answer :
      (u : Text) (h : Trace)
      → suspended_probe env t u h ≡ (ok (v.facts u).suspended, suspended_call u h)
  unfolding check_relation
  suspended_answer u h = rw (a.on_suspended h u) (ground arith)

  pub govern :
      (actor target : Text) (h : Trace)
      → (h' : Trace) × (starts h' ≡ starts h)
        × (assert_can_govern_owner env t actor target h
            ≡ ((if is_protected v actor target then throw cannot_govern else ok tt), h'))
  unfolding assert_can_govern_owner may_act
  govern actor target h = elim (Bool-cases (transfers v target)) [
    | inl owner ↦ (
      admin_call actor (transfer_call actor (transfer_call target h)),
      refl,
      rw (transfer_answer target h, owner, transfer_answer actor _, admin_answer actor _)
          (ground arith),
    )
    | inr plain ↦ (transfer_call target h, refl, rw (transfer_answer target h, plain) refl)
  ]

  all_suspended :
      (ids : List Text) (h : Trace)
      → (h' : Trace) × (starts h' ≡ starts h)
        × (all_of (map (suspended_probe env t) ids) h
            ≡ (ok (map (λ id. (v.facts id).suspended) ids), h'))
  unfolding all_of
  all_suspended [] h = (h, refl, refl)
  all_suspended (id ∷ ids) h =
      let (h', same, rest) = all_suspended ids (suspended_call id h) in
      (h', same, rw (suspended_answer id h, rest))

  unsuspended :
      (ids : List Text) (h : Trace)
      → (h' : Trace) × (starts h' ≡ starts h)
        × (some_unsuspended env t ids h ≡ (
          (if all (λ id. (v.facts id).suspended) ids then throw last_unsuspended_owner else ok tt),
          h',
        ))
  unfolding some_unsuspended
  unsuspended ids h =
      let (h', same, answered) = all_suspended ids h in
      (
        h',
        same,
        rw (answered, is_empty-unsuspended (λ id. (v.facts id).suspended) ids) (ground arith),
      )

  owners_answer :
      (h : Trace)
      → lookup_subjects_of env (obj "tenant" t) "owner" user none h
        ≡ (ok v.owners, lookup_subjects (owner_lookup t) ∷ h)
  unfolding lookup_subjects_of
  owners_answer h = rw (a.on_owners h, held_subjects-hits v.owners)

  pub not_last :
      (target : Text) (h : Trace)
      → (h' : Trace) × (starts h' ≡ starts h)
        × (assert_not_last_owner env t target h ≡ (outcome (owner_verdict v target), h'))
  unfolding assert_not_last_owner
  not_last target h = elim (Bool-cases (is_empty (others v target))) [
    | inl none_left ↦ (lookup_subjects (owner_lookup t) ∷ h, refl, rw (owners_answer h, none_left))
    | inr some_left ↦
        let (h', same, decided) =
          unsuspended (others v target) (lookup_subjects (owner_lookup t) ∷ h) in
        (h', same, rw (owners_answer h, some_left, decided) (ground arith))
  ]
