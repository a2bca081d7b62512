-- ===== src/Api/Principals/Suspension/Launches.antt =====
-- The guards start no workflow; the two handlers start one of the caller's tenant.
use monok8s.Prelude.{
  refl, Bool, true, false, none, List, ◌∷◌, ◌++◌, Text, lit, String, if◌then◌else◌,
}
use monok8s.Services.{Env, Thrown, ObjectRef, random_uuid}
use monok8s.Services.Traces.{
  IsQuiet, IsQuiet-bind, IsQuiet-both, IsQuiet-all_of, IsQuiet-pure, IsQuiet-perform, IsQuiet-raise,
}
use monok8s.Services.Exec.{Exec, pure, raise}
use monok8s.Auth.Roles.{PrincipalType}
use monok8s.Auth.Spice.{check_relation, is_platform_admin, lookup_subjects_of}
use monok8s.Api.Principals.Suspension.{
  target_is_owner, may_act, assert_can_govern_owner, suspended_probe, some_unsuspended,
  assert_not_last_owner, dispatch_suspend, suspend_user, dispatch_reinstate, reinstate_user,
}
use monok8s.Auth.Workflow.Uuid.{IsUuid}
use monok8s.Auth.Workflow.Parsing.{parse-workflow_id}
use monok8s.Api.Workflows.Launches.{Launches, Launches-bind, Launched-start}

-- The checks that run before a workflow is started.
module _ (env : Env) where
  IsQuiet-check_relation :
      (resource : ObjectRef) (relation : String) (type : PrincipalType) (id : Text)
      → IsQuiet (check_relation env resource relation type id none)
  unfolding check_relation
  IsQuiet-check_relation resource relation type id =
      IsQuiet-bind _ _ (IsQuiet-perform _ _ (λ h. refl)) (λ a. IsQuiet-pure _)

  IsQuiet-is_platform_admin : (id : Text) → IsQuiet (is_platform_admin env id)
  unfolding is_platform_admin
  IsQuiet-is_platform_admin id =
      IsQuiet-bind _ _ (IsQuiet-perform _ _ (λ h. refl)) (λ a. IsQuiet-pure _)

  IsQuiet-lookup :
      (resource : ObjectRef) (relation : String) (type : PrincipalType)
      → IsQuiet (lookup_subjects_of env resource relation type none)
  unfolding lookup_subjects_of
  IsQuiet-lookup resource relation type =
      IsQuiet-bind _ _ (IsQuiet-perform _ _ (λ h. refl)) (λ a. IsQuiet-pure _)

  IsQuiet-test :
      (b : Bool) (e : Thrown) (rest : Exec (Unit {0}))
      → IsQuiet rest
      → IsQuiet (if b then raise e else rest)
  IsQuiet-test true e rest q = IsQuiet-raise e
  IsQuiet-test false e rest q = q

  IsQuiet-skip :
      (b : Bool) (rest : Exec (Unit {0})) → IsQuiet rest → IsQuiet (if b then pure tt else rest)
  IsQuiet-skip true rest q = IsQuiet-pure tt
  IsQuiet-skip false rest q = q

  IsQuiet-may_act : (t actor : Text) → IsQuiet (may_act env t actor)
  unfolding may_act target_is_owner
  IsQuiet-may_act t actor =
      IsQuiet-bind _ _
        (IsQuiet-both _ _ (IsQuiet-check_relation _ _ _ _) (IsQuiet-is_platform_admin actor))
        (λ p. IsQuiet-test _ _ _ (IsQuiet-pure tt))

  IsQuiet-govern : (t actor u : Text) → IsQuiet (assert_can_govern_owner env t actor u)
  unfolding assert_can_govern_owner target_is_owner
  IsQuiet-govern t actor u =
      IsQuiet-bind _ _ (IsQuiet-check_relation _ _ _ _)
        (λ b. IsQuiet-skip _ _ (IsQuiet-may_act t actor))

  IsQuiet-some_unsuspended : (t : Text) (ids : List Text) → IsQuiet (some_unsuspended env t ids)
  unfolding some_unsuspended
  IsQuiet-some_unsuspended t ids =
      IsQuiet-bind _ _
        (IsQuiet-all_of (suspended_probe env t) (λ id. IsQuiet-check_relation _ _ _ _) ids)
        (λ flags. IsQuiet-test _ _ _ (IsQuiet-pure tt))

  IsQuiet-not_last : (t u : Text) → IsQuiet (assert_not_last_owner env t u)
  unfolding assert_not_last_owner
  IsQuiet-not_last t u =
      IsQuiet-bind _ _ (IsQuiet-lookup _ _ _)
        (λ owners. IsQuiet-test _ _ _ (IsQuiet-some_unsuspended t _))

  pub Launches-suspend : (t actor u : Text) → IsUuid t → Launches t (suspend_user env t actor u)
  unfolding suspend_user dispatch_suspend lit
  Launches-suspend t actor u v = Launches-bind t _ _ (IsQuiet-govern t actor u) (λ _.
      Launches-bind t _ _ (IsQuiet-not_last t u) (λ _. record {
        at = λ h.
            Launched-start t _ _ (random_uuid ∷ h) (env.on_start _ _)
              (parse-workflow_id t (lit "user-suspend-" ++ env.on_uuid h) v) refl;
      }))

  pub Launches-reinstate : (t actor u : Text) → IsUuid t → Launches t (reinstate_user env t actor u)
  unfolding reinstate_user dispatch_reinstate lit
  Launches-reinstate t actor u v = Launches-bind t _ _ (IsQuiet-govern t actor u) (λ _. record {
    at = λ h.
        Launched-start t _ _ (random_uuid ∷ h) (env.on_start _ _)
          (parse-workflow_id t (lit "user-reinstate-" ++ env.on_uuid h) v) refl;
  })
