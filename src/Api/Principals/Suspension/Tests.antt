-- ===== src/Api/Principals/Suspension/Tests.antt =====
-- The guards of owners, on a tenant with three owners, one of them suspended.
use monok8s.Prelude.{◌≡◌, refl, true, not, ◌&&◌, [], lit, ◌==◌, any}
use monok8s.Services.{Trace}
use monok8s.Services.Exec.{all_of}
use monok8s.Services.Traces.{starts}
use monok8s.Auth.Schema.{permits}
use monok8s.Auth.Spice.{check, check_relation, is_platform_admin, lookup_subjects_of}
use monok8s.Fixtures.{acme, alice, bob, dora, facts_of, view, env, env-Answers}
use monok8s.Api.Principals.Suspension.{
  target_is_owner, may_act, assert_can_govern_owner, some_unsuspended, assert_not_last_owner,
  suspend_user, dispatch_suspend, reinstate_user, dispatch_reinstate,
}
use monok8s.Api.Principals.Suspension.Guards.{verdict}
use monok8s.Api.Principals.Suspension.Owners.{
  after_guards, suspend_user-verdict, suspend_user-keeps_owner, reinstate_user-unguarded,
}

suspend_user-verdict_example :
    (h' : Trace) × (starts h' ≡ starts [])
    × (suspend_user env acme alice bob []
        ≡ after_guards env acme view env-Answers
            (verdict view alice bob)
            (dispatch_suspend env acme alice bob)
            h')
suspend_user-verdict_example = suspend_user-verdict env acme view env-Answers alice bob []

suspend_user-keeps_owner_example :
    any (λ id. not (id == bob) && not (facts_of id).suspended) view.owners ≡ true
unfolding lit ◌==◌ permits all_of check check_relation is_platform_admin lookup_subjects_of
    target_is_owner may_act assert_can_govern_owner some_unsuspended assert_not_last_owner
    suspend_user dispatch_suspend
suspend_user-keeps_owner_example =
    suspend_user-keeps_owner env acme view env-Answers alice bob
      (lit
        "tnt-0f8fad5b-d9cb-469f-a165-70867728950e-user-suspend-e02fd0e4-00fd-090a-ca30-0d00a0038ba0")
      [] refl

reinstate_user-unguarded_example :
    (h' : Trace) × (starts h' ≡ starts [])
    × (reinstate_user env acme (lit "eve") dora []
        ≡ dispatch_reinstate env acme (lit "eve") dora h')
unfolding lit ◌==◌
reinstate_user-unguarded_example =
    reinstate_user-unguarded env acme view env-Answers (lit "eve") dora [] refl
