-- ===== src/Tests/Server.antt =====
-- apps/api and the portal: which requests are answered, with one session on the server.
use monok8s.Services.Exec.{Exec, pure}
use monok8s.Auth.Roles.{TenantPermission}
use monok8s.Auth.Middleware.{not_given, tenant_procedure}
use monok8s.Api.Server.{Handled, by_trpc, serve as serve_http}
use monok8s.Api.Server.Tokens.{serve-tenant_procedure}
use monok8s.Api.Connections
use monok8s.Api.Connections.Once.{Stands, callers, calls, run-Stands}
use monok8s.Fixtures.{env}
use monok8s.Services.{Trace, trpc_error, unauthorized}
use monok8s.Prelude.{◌≡◌, refl, Option, none, some, List, [], ◌∷◌, ◌++◌, Text, lit, ◌==◌}
use monok8s.Services.{Result, ok, throw, error}
use monok8s.Api.Sessions.{Stores, lookup_session}
use monok8s.Api.Sessions.Cookies.{read_session_cookie}
use monok8s.Api.Sessions.Cookies.RoundTrip.{cookie_header}
use monok8s.Api.Login.{WireUser}
use monok8s.Api.AuthRoutes.{Request, Body, no_body, failure, user, present, route_me}
use monok8s.Frontend.Session.{Location, mounted, on_mount, switch_all}
use monok8s.Frontend.Session.Shown.{shown, fetched, switch_all-on_mount}
use monok8s.Fixtures.{alice_user}
use monok8s.Tests.Routes.{
  app, oidc, with_params, draws, parse_url, request, session_jar, me_request,
}

abbrev one_session : Stores
one_session = record {
  sessions =
      (lit "ab12", record { user = alice_user; access_token = lit "jwt"; expires_at = 100 }) ∷ [];
  pending = [];
}

abbrev read_json : Body → Result WireUser
read_json no_body = throw (error (lit "Unexpected end of JSON input"))
read_json (failure code detail) = throw (error (lit "no user"))
read_json (user w) = ok w

abbrev at_audit : Option Location
at_audit = some (record { pathname = lit "/audit"; search = []; hash = [] })

switch_all-on_mount_example :
    let answer = (route_me oidc with_params (λ v. v) app me_request draws one_session).0 in
    let found =
      lookup_session (present (read_session_cookie me_request.cookie)) draws.now one_session in
    switch_all (lit "globex" ∷ []) (
      on_mount
        (λ t. t)
        at_audit
        (fetched oidc with_params (λ v. v) app read_json (λ w. refl) answer)
        mounted)
    ≡ shown (λ t. t) at_audit found.0
switch_all-on_mount_example =
    switch_all-on_mount oidc with_params (λ v. v) app read_json (λ w. refl) (λ t. t) at_audit
      (lit "globex" ∷ []) me_request draws one_session

abbrev list_request : Request
list_request = request (lit "POST") (lit "/api/trpc/audit.list") (cookie_header session_jar)

abbrev read_procedure : Text → Exec Text
read_procedure token =
    tenant_procedure env (λ t. pure alice_user) (λ t. pure 7) TenantPermission.read not_given token
      (λ u db. pure u.tenant_id)

abbrev list_answer : Option Text → Handled Text × Stores × Trace
list_answer authorization =
    serve_http oidc with_params (λ v. v) app parse_url read_procedure authorization list_request
      draws one_session []

serve-tenant_procedure_example :
    (list_answer none
      ≡ (by_trpc (throw (trpc_error unauthorized (lit "missing bearer token"))), one_session, []))
    × (list_answer (some (lit "Bearer " ++ lit "jwt")) ≡ (
      by_trpc (read_procedure (lit "jwt") []).0,
      one_session,
      (read_procedure (lit "jwt") []).1,
    ))
unfolding lit ◌==◌
serve-tenant_procedure_example =
    serve-tenant_procedure oidc with_params (λ v. v) app parse_url env (λ t. pure alice_user)
      (λ t. pure 7) TenantPermission.read not_given (λ u db. pure u.tenant_id) list_request draws
      one_session [] (lit "jwt") (lit "/api/trpc/audit.list", (refl, (refl, refl)))

abbrev callers_of_nats : List (Connections.Event Text)
callers_of_nats =
    Connections.call
    ∷ Connections.call
    ∷ Connections.outcome (throw (error (lit "no route to host")))
    ∷ Connections.call
    ∷ []

run-Stands_example :
    Stands (Connections.run callers_of_nats Connections.fresh)
    × (callers (Connections.run callers_of_nats Connections.fresh) ≡ calls callers_of_nats)
run-Stands_example = run-Stands callers_of_nats
