-- ===== src/Auth/Middleware/Authorised.antt =====
-- What the guards let through: the body of a procedure runs for an authorised caller only.
use monok8s.Prelude.{
  ◌≡◌, refl, ◌∷◌, ◌++◌, Bool, true, false, none, Text, lit, is_blank, ◌⊎◌, inl, inr, Bool-cases,
}
use monok8s.Services.{
  unspecified, no_permission, conditional_permission, Env, PoolId, Thrown, Result, ok, throw, Trace,
  CheckRequest, Permissionship, has_permission, check_permission, trpc_error, unauthorized,
}
use monok8s.Services.Exec.{Exec}
use monok8s.Auth.Roles.{TenantPermission, permission_name}
use monok8s.Auth.Spice.{obj, subj, fresh_as, check, can_on_tenant}
use monok8s.Auth.Zitadel.{VerifiedUser}
use monok8s.Auth.Middleware.{
  OptionsArg, as_options, needs_mfa, permit, auth_middleware, tenant_middleware, tenant_procedure,
  mfa_required, missing_permission, message_of,
}

-- The check that must succeed: the user's own permission on the user's own tenant.
abbrev pub own_check : TenantPermission → OptionsArg → VerifiedUser → CheckRequest
own_check permission arg user = record {
  resource = obj "tenant" user.tenant_id;
  permission = permission_name permission;
  subject = subj (obj "user" user.user_id) none;
  consistency = fresh_as (as_options arg).zed_token;
  context = none;
}

module _ {ℓ} (A : Type ℓ) (env : Env) (verifier : Text → Exec VerifiedUser)
    (pool_factory : Text → Exec PoolId) (permission : TenantPermission) (arg : OptionsArg)
    (token : Text) (h : Trace) where
  abbrev proc : (VerifiedUser → PoolId → Exec A) → Result A × Trace
  proc next = tenant_procedure env verifier pool_factory permission arg token next h

  -- The body does not run, whatever it is.
  pub record Refused : Type ℓ where
    pub error : Thrown
    pub after : Trace
    pub refuses : (next : VerifiedUser → PoolId → Exec A) → proc next ≡ (throw error, after)

  -- The body runs, last, with the user that the token stands for and the pool of that user's tenant.
  pub record Admitted : Type ℓ where
    pub user : VerifiedUser
    pub db : PoolId
    pub seen : Trace
    pub after : Trace
    pub verifies : verifier token h ≡ (ok user, seen)
    pub strong : needs_mfa (as_options arg) user ≡ false
    pub permitted : env.on_check seen (own_check permission arg user) ≡ ok has_permission
    pub connects :
        pool_factory user.tenant_id (check_permission (own_check permission arg user) ∷ seen)
        ≡ (ok db, after)
    pub runs : (next : VerifiedUser → PoolId → Exec A) → proc next ≡ next user db after

  pooled :
      (user : VerifiedUser) (seen : Trace) (r : Result PoolId) (after : Trace)
      → is_blank token ≡ false
      → verifier token h ≡ (ok user, seen)
      → needs_mfa (as_options arg) user ≡ false
      → env.on_check seen (own_check permission arg user) ≡ ok has_permission
      → pool_factory user.tenant_id (check_permission (own_check permission arg user) ∷ seen)
        ≡ (r, after)
      → Refused ⊎ Admitted
  unfolding tenant_procedure auth_middleware tenant_middleware permit can_on_tenant check
  pooled user seen (ok db) after b v m c p = inr (record {
    user = user;
    db = db;
    seen = seen;
    after = after;
    verifies = v;
    strong = m;
    permitted = c;
    connects = p;
    runs = λ next. rw (b, v, m, c, p) refl;
  })
  pooled user seen (throw e) after b v m c p =
      inl (record { error = e; after = after; refuses = λ next. rw (b, v, m, c, p) refl })

  abbrev refusal : VerifiedUser → Thrown
  refusal user =
      missing_permission (lit (permission_name permission)) (lit "tenant " ++ user.tenant_id)

  abbrev after_check : VerifiedUser → Trace → Trace
  after_check user seen = check_permission (own_check permission arg user) ∷ seen

  checked :
      (user : VerifiedUser) (seen : Trace) (r : Result Permissionship)
      → is_blank token ≡ false
      → verifier token h ≡ (ok user, seen)
      → needs_mfa (as_options arg) user ≡ false
      → env.on_check seen (own_check permission arg user) ≡ r
      → Refused ⊎ Admitted
  unfolding tenant_procedure auth_middleware tenant_middleware permit can_on_tenant check
  checked user seen (ok has_permission) b v m c = pooled user seen _ _ b v m c refl
  checked user seen (ok unspecified) b v m c = inl (record {
    error = refusal user;
    after = after_check user seen;
    refuses = λ next. rw (b, v, m, c) refl;
  })
  checked user seen (ok no_permission) b v m c = inl (record {
    error = refusal user;
    after = after_check user seen;
    refuses = λ next. rw (b, v, m, c) refl;
  })
  checked user seen (ok conditional_permission) b v m c = inl (record {
    error = refusal user;
    after = after_check user seen;
    refuses = λ next. rw (b, v, m, c) refl;
  })
  checked user seen (throw e) b v m c =
      inl (record {
        error = e;
        after = after_check user seen;
        refuses = λ next. rw (b, v, m, c) refl;
      })

  tested :
      (user : VerifiedUser) (seen : Trace) (weak : Bool)
      → is_blank token ≡ false
      → verifier token h ≡ (ok user, seen)
      → needs_mfa (as_options arg) user ≡ weak
      → Refused ⊎ Admitted
  unfolding tenant_procedure auth_middleware tenant_middleware permit
  tested user seen false b v m = checked user seen _ b v m refl
  tested user seen true b v m =
      inl (record { error = mfa_required; after = seen; refuses = λ next. rw (b, v, m) refl })

  verified_as :
      (r : Result VerifiedUser) (seen : Trace)
      → is_blank token ≡ false
      → verifier token h ≡ (r, seen)
      → Refused ⊎ Admitted
  unfolding tenant_procedure auth_middleware
  verified_as (ok user) seen b v = tested user seen _ b v refl
  verified_as (throw e) seen b v = inl (record {
    error = trpc_error unauthorized (message_of e);
    after = seen;
    refuses = λ next. rw (b, v) refl;
  })

  -- A tenant procedure either throws one error without running its body, whatever the body is, or it
  -- runs it last. It runs it only after the verifier has accepted the token, the strong factor is there
  -- where it is required, SpiceDB has answered that the token's user has the permission on the token's
  -- own tenant, and the pool that the body gets is the one made for that tenant.
  pub tenant_procedure-guards : Refused ⊎ Admitted
  unfolding tenant_procedure auth_middleware
  tenant_procedure-guards = elim (Bool-cases (is_blank token)) [
    | inl b ↦ inl (record {
      error = trpc_error unauthorized (lit "missing bearer token");
      after = h;
      refuses = λ next. rw b refl;
    })
    | inr b ↦ verified_as _ _ b refl
  ]
