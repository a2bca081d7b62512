-- ===== src/Api/Grants/Expiry.antt =====
-- A grant's workflow is found again by the grant's ID; another tenant's grant is not shown or changed.
use monok8s.Prelude.{◌≡◌, refl, arith, sym, ap, Bool, Option, none, [], ◌∷◌, Text}
use monok8s.Services.{Env, PoolId, TemporaryGrant, Trace, Result, ok, throw, signal, StartRequest}
use monok8s.Services.Traces.{starts}
use monok8s.Services.Exec.{continue, pure}
use monok8s.Db.Grants
use monok8s.Api.Grants.{
  CreateInput, Created, is_own, create_temporary_grant, revoke_temporary_grant, get_grant,
  update_grant_reason,
}

-- The value that follows a call that succeeded is the value returned, and no call is made after it.
returned :
    {A : Type 0} (r : Result (Unit {0})) (h h1 : Trace) (d c : A)
    → continue (r, h) (λ _. pure d) ≡ (ok c, h1)
    → (d ≡ c) × (h ≡ h1)
returned (ok _) h h1 d c e = (grind arith, grind arith)
returned (throw x) h h1 d c e = absurd (grind arith)

-- A handler's answer, after the signal to workflow `w` was answered.
abbrev pub signalled : Text → Result (Unit {0}) → Result Text
signalled w (ok _) = ok w
signalled w (throw e) = throw e

revoke_lem :
    (r : Result (Unit {0})) (w : Text) (h : Trace)
    → continue (r, h) (λ _. pure w) ≡ (signalled w r, h)
revoke_lem (ok _) w h = refl
revoke_lem (throw e) w h = refl

-- A creation that succeeds starts exactly one workflow, whose ID it returns. Revoking, in the same tenant, the grant whose ID
-- the creation returned makes one call, the signal "revoke" to that very workflow, and answers with the
-- workflow's ID if the signal succeeds and with the signal's failure if not.
pub revoke-create :
    (env : Env) (t granted_by revoked_by : Text) (input : CreateInput) (h h1 : Trace) (c : Created)
    → create_temporary_grant env t granted_by input h ≡ (ok c, h1)
    → (r : StartRequest) × ((starts h1 ≡ r ∷ starts h)
        × ((r.workflow_id ≡ c.workflow_id)
            × (revoke_temporary_grant env t revoked_by c.grant_id h1 ≡ (
              signalled r.workflow_id (env.on_signal h1 r.workflow_id "revoke" []),
              signal r.workflow_id "revoke" [] ∷ h1,
            ))))
unfolding create_temporary_grant revoke_temporary_grant
revoke-create env t granted_by revoked_by input h h1 c e =
    let (same, trace) = returned _ _ h1 _ c e in
    (
      _,
      (
        ap starts (sym trace),
        (ap (λ d. d.workflow_id) same, rw (sym (ap (λ d. d.grant_id) same)) (revoke_lem _ _ _)),
      ),
    )

module _ (env : Env) (db : PoolId) (t id : Text) where
  -- A grant that is missing or is another tenant's is not shown, and its reason is not changed: both
  -- handlers answer null, and the one query that they send is the lookup.
  pub get_grant-foreign :
      (reason : Option Text) (row : Option TemporaryGrant) (h h1 : Trace)
      → Grants.find_by_id env db id h ≡ (ok row, h1)
      → is_own t row ≡ Bool.false
      → (get_grant env db t id h ≡ (ok none, h1))
        × (update_grant_reason env db t id reason h ≡ (ok none, h1))
  unfolding get_grant update_grant_reason
  get_grant-foreign reason row h h1 e f = rw (e, f) (refl, refl)
