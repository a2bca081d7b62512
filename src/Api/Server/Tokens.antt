-- ===== src/Api/Server/Tokens.antt =====
-- What of a request authorises a tRPC procedure.
use monok8s.Prelude.{
  ◌≡◌, ◌∙◌, refl, ℕ, true, false, none, some, List, [], ◌∷◌, ◌++◌, Text, lit, ◌==◌, length,
  starts_with, arith, Option,
}
use monok8s.Services.{Env, PoolId, Result, throw, trpc_error, unauthorized, Trace}
use monok8s.Services.Exec.{Exec}
use monok8s.Auth.Roles.{TenantPermission}
use monok8s.Auth.Zitadel.{VerifiedUser}
use monok8s.Auth.Middleware.{OptionsArg, auth_middleware, tenant_procedure}
use monok8s.Api.Config.{AppConfig}
use monok8s.Api.Sessions.{Stores}
use monok8s.Api.System.{handle_system_route}
use monok8s.Api.Login.{Oidc}
use monok8s.Api.AuthRoutes.{Url, Request, Draws, handle_auth_route}
use monok8s.Api.Server.{drop, without_first, create_context, Handled, by_trpc, next, serve}

starts_with-append : (p s : Text) → starts_with p (p ++ s) ≡ true
starts_with-append [] s = refl
starts_with-append (c ∷ p) s = ground (arith, starts_with-append p s)

drop-append : (p s : Text) → drop (length p) (p ++ s) ≡ s
drop-append [] s = refl
drop-append (c ∷ p) s = drop-append p s

without_first-append : (c : ℕ) (p s : Text) → without_first (c ∷ p) ((c ∷ p) ++ s) ≡ s
unfolding without_first
without_first-append c p s = rw (starts_with-append (c ∷ p) s) (drop-append (c ∷ p) s)

without_first-bearer : (t : Text) → without_first (lit "Bearer ") (lit "Bearer " ++ t) ≡ t
unfolding lit
without_first-bearer t = without_first-append b'B' (b'e' ∷ b'a' ∷ b'r' ∷ b'e' ∷ b'r' ∷ b' ' ∷ []) t

-- A request whose path is neither the system route's nor under `/api/auth/`.
abbrev pub ForTrpc : Request → Type 0
ForTrpc req =
    (u : Text) × ((req.url ≡ some u)
      × (((u == lit "/api/v1/system/cloud") ≡ false) × (starts_with (lit "/api/auth/") u ≡ false)))

module _ {ℓ} {A : Type ℓ} (oidc : Oidc) (with_params : Text → List (Text × Text) → Result Text)
    (derive_code_challenge : Text → Text) (app : AppConfig)
    (parse_url : Text → Text → Option Url) where
  serve-next :
      (procedure : Text → Exec A) (authorization : Option Text) (req : Request) (draws : Draws)
      (s : Stores) (h : Trace)
      → ForTrpc req
      → serve oidc with_params derive_code_challenge app parse_url procedure authorization req draws
          s h
        ≡ next oidc with_params derive_code_challenge app parse_url procedure authorization s h
  unfolding serve handle_system_route handle_auth_route
  serve-next procedure authorization req draws s h (u, (e, (n, a))) = rw (e, n, a) refl

  -- A request for a tenant procedure, at a path that is neither the system route's nor under `/api/auth/`,
  -- is refused before anything is called when it has no header `authorization`, whatever cookies it
  -- brings and whatever sessions the server has: the cookie that the login set authorises no procedure.
  -- With the header "Bearer " and a token, the procedure runs with just that token. No session changes.
  pub serve-tenant_procedure :
      (env : Env) (verifier : Text → Exec VerifiedUser) (pool_factory : Text → Exec PoolId)
      (permission : TenantPermission) (arg : OptionsArg) (body : VerifiedUser → PoolId → Exec A)
      (req : Request) (draws : Draws) (s : Stores) (h : Trace) (t : Text)
      → ForTrpc req
      → let procedure : Text → Exec A =
          λ token. tenant_procedure env verifier pool_factory permission arg token body in
        let answer : Option Text → Handled A × Stores × Trace = λ authorization.
          serve oidc with_params derive_code_challenge app parse_url procedure authorization req
            draws s h in
        (answer none
          ≡ (by_trpc (throw (trpc_error unauthorized (lit "missing bearer token"))), s, h))
        × (answer (some (lit "Bearer " ++ t)) ≡ (by_trpc (procedure t h).0, s, (procedure t h).1))
  unfolding create_context tenant_procedure auth_middleware
  serve-tenant_procedure env verifier pool_factory permission arg body req draws s h t f =
      let procedure : Text → Exec A =
        λ token. tenant_procedure env verifier pool_factory permission arg token body in
      (
        serve-next procedure none req draws s h f,
        serve-next procedure (some (lit "Bearer " ++ t)) req draws s h f
            ∙ rw (without_first-bearer t) refl,
      )
