-- ===== src/Auth/Middleware/Required.antt =====
-- What `requirePermission` lets through.
use monok8s.Prelude.{
  ◌≡◌, refl, ◌++◌, ◌∙◌, Bool, false, Option, none, some, ◌∷◌, lit, ◌⊎◌, inl, inr, Bool-cases,
}
use monok8s.Services.{
  Env, Thrown, Result, ok, throw, Trace, CheckRequest, Permissionship, unspecified, no_permission,
  conditional_permission, has_permission, check_permission,
}
use monok8s.Services.Exec.{Exec, pure, perform, ◌>>=◌}
use monok8s.Auth.Roles.{permission_name, installation_permission_name}
use monok8s.Auth.Spice.{
  obj, subj, fresh_as, is_held, check, can_on_tenant, can_on_installation, is_platform_admin,
}
use monok8s.Auth.Zitadel.{VerifiedUser}
use monok8s.Auth.Middleware.{
  Options, missing_permission, PermissionResource, tenant, installation, platform, system,
  OptionsArg, as_options, needs_mfa, mfa_required, permit, require_permission, not_wired,
}

-- The check that a resource stands for; a system resource has none.
abbrev pub required_check : PermissionResource → OptionsArg → VerifiedUser → Option CheckRequest
required_check (tenant id p) arg u = some (record {
  resource = obj "tenant" id;
  permission = permission_name p;
  subject = subj (obj "user" u.user_id) none;
  consistency = fresh_as (as_options arg).zed_token;
  context = none;
})
required_check (installation id p) arg u = some (record {
  resource = obj "installation" id;
  permission = installation_permission_name p;
  subject = subj (obj "user" u.user_id) none;
  consistency = fresh_as (as_options arg).zed_token;
  context = none;
})
required_check (platform id) arg u = some (record {
  resource = obj "platform" (lit "monok8s");
  permission = "administrate";
  subject = subj (obj "user" u.user_id) none;
  consistency = none;
  context = none;
})
required_check (system id) arg u = none

module _ {ℓ} (A : Type ℓ) (env : Env) (opts : Options) (u : VerifiedUser) (req : CheckRequest)
    (refusal : Thrown) (h : Trace) where
  abbrev asked : Exec Bool
  asked = do res ← perform (λ h'. env.on_check h' req) (check_permission req); pure (is_held res)

  abbrev Outcome : Type ℓ
  Outcome =
      ((e : Thrown) × ((after : Trace) × ((next : Exec A)
            → permit opts u asked refusal next h ≡ (throw e, after))))
      ⊎ ((needs_mfa opts u ≡ false)
          × ((env.on_check h req ≡ ok has_permission)
              × ((next : Exec A)
                  → permit opts u asked refusal next h ≡ next (check_permission req ∷ h))))

  answered :
      (r : Result Permissionship) → needs_mfa opts u ≡ false → env.on_check h req ≡ r → Outcome
  unfolding permit
  answered (ok has_permission) m c = inr (m, (c, λ next. rw (m, c) refl))
  answered (ok unspecified) m c = inl (refusal, (check_permission req ∷ h, λ next. rw (m, c) refl))
  answered (ok no_permission) m c =
      inl (refusal, (check_permission req ∷ h, λ next. rw (m, c) refl))
  answered (ok conditional_permission) m c =
      inl (refusal, (check_permission req ∷ h, λ next. rw (m, c) refl))
  answered (throw e) m c = inl (e, (check_permission req ∷ h, λ next. rw (m, c) refl))

  permit-cases : Outcome
  unfolding permit
  permit-cases = elim (Bool-cases (needs_mfa opts u)) [
    | inl m ↦ inl (mfa_required, (h, λ next. rw m refl))
    | inr m ↦ answered _ m refl
  ]

module _ {ℓ} (A : Type ℓ) (env : Env) (arg : OptionsArg) (u : VerifiedUser) (h : Trace)
    (resource : PermissionResource) where
  abbrev guarded : Exec A → Result A × Trace
  guarded next = require_permission env resource arg (some u) next h

  -- The body does not run, whatever it is.
  pub record Stopped : Type ℓ where
    pub error : Thrown
    pub after : Trace
    pub stops : (next : Exec A) → guarded next ≡ (throw error, after)

  -- The body runs, last, after the resource's check was answered with "has permission".
  pub record Passed : Type ℓ where
    pub request : CheckRequest
    pub asks : required_check resource arg u ≡ some request
    pub strong : needs_mfa (as_options arg) u ≡ false
    pub permitted : env.on_check h request ≡ ok has_permission
    pub runs : (next : Exec A) → guarded next ≡ next (check_permission request ∷ h)

  checked :
      (req : CheckRequest) (refusal : Thrown)
      → required_check resource arg u ≡ some req
      → ((next : Exec A)
          → guarded next
            ≡ permit
                (as_options arg)
                u
                (asked A env (as_options arg) u req refusal h)
                refusal
                next
                h)
      → Stopped ⊎ Passed
  checked req refusal q same = elim (permit-cases A env (as_options arg) u req refusal h) [
    | inl (e, (after, stops)) ↦
        inl (record { error = e; after = after; stops = λ next. same next ∙ stops next })
    | inr (m, (c, runs)) ↦ inr (record {
      request = req;
      asks = q;
      strong = m;
      permitted = c;
      runs = λ next. same next ∙ runs next;
    })
  ]

-- Any resource: the procedure's body runs only for a user with the strong factor, where it is
-- required, whom SpiceDB has just answered to have the permission on that resource; otherwise one
-- error is thrown and the body does not run, whatever it is.
pub require_permission-guards {ℓ} :
    (A : Type ℓ) (env : Env) (arg : OptionsArg) (u : VerifiedUser) (h : Trace)
    (resource : PermissionResource)
    → Stopped A env arg u h resource ⊎ Passed A env arg u h resource
unfolding require_permission permit can_on_tenant can_on_installation is_platform_admin check
require_permission-guards A env arg u h (tenant id p) =
    checked A env arg u h (tenant id p) _
      (missing_permission (lit (permission_name p)) (lit "tenant:" ++ id)) refl (λ next. refl)
require_permission-guards A env arg u h (installation id p) =
    checked A env arg u h (installation id p) _
      (missing_permission (lit (installation_permission_name p)) (lit "installation:" ++ id)) refl
      (λ next. refl)
require_permission-guards A env arg u h (platform id) =
    checked A env arg u h (platform id) _
      (missing_permission (lit "administrate") (lit "platform:" ++ id)) refl (λ next. refl)
require_permission-guards A env arg u h (system id) =
    elim (Bool-cases (needs_mfa (as_options arg) u)) [
      | inl m ↦ inl (record { error = mfa_required; after = h; stops = λ next. rw m refl })
      | inr m ↦ inl (record { error = not_wired; after = h; stops = λ next. rw m refl })
    ]
