-- ===== src/Api/AuthRoutes.antt =====
-- apps/api/src/routers/auth.ts: the HTTP routes of the login. A response is what is written to
-- `res`; its body is the JSON value, and its content headers are not modelled. Node's URL parser, the URL
-- class and the handlers' outside world are arguments, as are the random texts and times that one
-- request draws. The configuration is that of a `getConfig` that succeeded.
pub mod Responses
pub mod Requests
pub mod Turns
pub mod Flow
pub mod Logout
use monok8s.Prelude.{
  ℕ, Bool, true, false, not, ◌&&◌, ◌||◌, Option, none, some, List, [], ◌∷◌, ◌++◌, Text, lit, ◌==◌,
  is_blank, or_else, starts_with, if◌then◌else◌,
}
use monok8s.Services.{Thrown, error, Result, ok, throw}
use monok8s.Services.Exec.{detail_of}
use monok8s.Api.Config.{AppConfig}
use monok8s.Api.Sessions.{SessionRecord, Stores, lookup_session, delete_session}
use monok8s.Api.Sessions.Cookies.{
  CookieFlags, format_session_cookie, format_pending_cookie, format_clear_session_cookie,
  format_clear_pending_cookie, read_session_cookie, read_pending_cookie,
}
use monok8s.Api.Login.{
  OidcConfig, Oidc, OidcDiscovery, LoginResult, CallbackArgs, CallbackResult, WireUser,
  handle_login, handle_callback, shape_wire_user,
}
pub use monok8s.Api.AuthRoutes.Responses.{
  Url, Request, Body, no_body, failure, user, Response, Draws, send, redirect, not_configured,
  cookie_flags, or_500, present,
}
unfoldable pub use monok8s.Api.AuthRoutes.Responses.{oidc_config}

module _ (oidc : Oidc) (with_params : Text → List (Text × Text) → Result Text)
    (derive_code_challenge : Text → Text) (app : AppConfig) where
  -- ── GET /api/auth/login
  abbrev pub login_answer : Result LoginResult × Stores → Result Response × Stores
  login_answer (ok r, s) =
      (ok (redirect r.authorize_url (format_pending_cookie r.state (cookie_flags app) ∷ [])), s)
  login_answer (throw e, s) = (throw e, s)

  abbrev pub login_with : Option OidcConfig → Url → Draws → Stores → Result Response × Stores
  login_with none url draws s = (ok not_configured, s)
  login_with (some cfg) url draws s = login_answer (
      handle_login oidc with_params derive_code_challenge cfg (url.param (lit "returnTo"))
        draws.state draws.verifier draws.now s)

  unfoldable pub route_login : Url → Draws → Stores → Result Response × Stores
  route_login url draws s = login_with (oidc_config app) url draws s

  -- ── GET /api/auth/callback
  abbrev pub callback_answer : Result CallbackResult × Stores → Response × Stores
  callback_answer (ok r, s) = (
    redirect r.return_to (
        format_session_cookie r.session_id (cookie_flags app)
        ∷ format_clear_pending_cookie (cookie_flags app)
        ∷ []),
    s,
  )
  callback_answer (throw e, s) = (
    record {
      status = 400;
      location = none;
      set_cookie = format_clear_pending_cookie (cookie_flags app) ∷ [];
      body = failure (lit "callback_failed") (some (detail_of e));
    },
    s,
  )

  abbrev pub callback_args : OidcConfig → Request → Url → CallbackArgs
  callback_args cfg req url = record {
    config = cfg;
    state_from_query = present (url.param (lit "state"));
    state_from_cookie = present (read_pending_cookie req.cookie);
    code = present (url.param (lit "code"));
  }

  abbrev pub callback_with :
      Option OidcConfig → Request → Url → Draws → Stores → Result Response × Stores
  callback_with none req url draws s = (ok not_configured, s)
  callback_with (some cfg) req url draws s =
      let refusal = present (url.param (lit "error")) in
      if not (is_blank refusal)
      then (ok (send 400 (failure (lit "oidc_error") (some refusal))), s)
      else if is_blank (present (url.param (lit "state")))
          || is_blank (present (url.param (lit "code")))
      then (ok (send 400 (failure (lit "missing_state_or_code") none)), s)
      else (let (r, s1) = callback_answer (
            handle_callback oidc (callback_args cfg req url) draws.session_id draws.now draws.later
              s) in
          (ok r, s1))

  unfoldable pub route_callback : Request → Url → Draws → Stores → Result Response × Stores
  route_callback req url draws s = callback_with (oidc_config app) req url draws s

  -- ── GET /api/auth/me
  abbrev pub me_answer : Option SessionRecord × Stores → Response × Stores
  me_answer (none, s) = (send 401 (failure (lit "unauthenticated") none), s)
  me_answer (some session, s) = (send 200 (user (shape_wire_user session.user)), s)

  unfoldable pub route_me : Request → Draws → Stores → Response × Stores
  route_me req draws s =
      me_answer (lookup_session (present (read_session_cookie req.cookie)) draws.now s)

  -- ── POST /api/auth/logout
  -- `buildEndSessionUrl`
  abbrev pub end_session_of : OidcConfig → Text → Result OidcDiscovery → Result (Option Text)
  end_session_of cfg back (throw e) = throw e
  end_session_of cfg back (ok discovery) =
      let endpoint = present discovery.end_session_endpoint in
      let built =
        with_params endpoint
          ((lit "client_id", cfg.client_id) ∷ (lit "post_logout_redirect_uri", back) ∷ []) in
      if is_blank endpoint
      then ok none
      else elim built [ ok url ↦ ok (some url) | throw e ↦ throw e ]

  abbrev pub build_end_session_url : OidcConfig → Text → Result (Option Text)
  build_end_session_url cfg back = end_session_of cfg back (oidc.discover cfg.issuer)

  -- The page to return to after the logout.
  abbrev pub origin : Request → Text
  origin req =
      let host = present (elim req.forwarded_host [ some h ↦ some h | none ↦ req.host ]) in
      if is_blank host then [] else or_else req.forwarded_proto (lit "https") ++ (lit "://" ++ host)

  -- A failure is as no URL.
  abbrev pub no_failure : Result (Option Text) → Text
  no_failure (ok url) = present url
  no_failure (throw e) = []

  abbrev pub end_session : Option OidcConfig → Request → Text
  end_session none req = []
  end_session (some cfg) req = no_failure (build_end_session_url cfg (origin req ++ lit "/"))

  unfoldable pub route_logout : Request → Stores → Response × Stores
  route_logout req s =
      let s1 = (delete_session (present (read_session_cookie req.cookie)) s).1 in
      let clear_cookie = format_clear_session_cookie (cookie_flags app) ∷ [] in
      let to = end_session (oidc_config app) req in
      if not (is_blank to)
      then (redirect to clear_cookie, s1)
      else (record { status = 204; location = none; set_cookie = clear_cookie; body = no_body }, s1)

  -- ── the entry point
  abbrev pub only : Text → Request → Response × Stores → Stores → Response × Stores
  only method req answer s =
      if req.method == method
      then answer
      else (send 405 (failure (lit "method_not_allowed") none), s)

  abbrev pub dispatch : Url → Request → Draws → Stores → Response × Stores
  dispatch url req draws s =
      if url.pathname == lit "/api/auth/login"
      then only (lit "GET") req (or_500 (lit "login_failed") (route_login url draws s)) s
      else if url.pathname == lit "/api/auth/callback"
      then only (lit "GET") req (or_500 (lit "callback_failed") (route_callback req url draws s)) s
      else if url.pathname == lit "/api/auth/me"
      then only (lit "GET") req (route_me req draws s) s
      else if url.pathname == lit "/api/auth/logout"
      then only (lit "POST") req (route_logout req s) s
      else (send 404 (failure (lit "not_found") none), s)

  -- A URL that does not parse is an exception of `handleAuthRoute` itself, before any route runs.
  abbrev pub invalid_url : Thrown
  invalid_url = error (lit "Invalid URL")

  abbrev pub dispatched : Option Url → Request → Draws → Stores → Result (Option Response) × Stores
  dispatched none req draws s = (throw invalid_url, s)
  dispatched (some url) req draws s = let (r, s1) = dispatch url req draws s in (ok (some r), s1)

  abbrev pub base_of : Request → Text
  base_of req = lit "http://" ++ or_else req.host (lit "localhost")

  -- The answer is none where the request is left to the tRPC handler.
  abbrev pub routed :
      (Text → Text → Option Url)
      → Option Text
      → Request
      → Draws
      → Stores
      → Result (Option Response) × Stores
  routed parse_url none req draws s = (ok none, s)
  routed parse_url (some raw) req draws s =
      if starts_with (lit "/api/auth/") raw
      then dispatched (parse_url raw (base_of req)) req draws s
      else (ok none, s)

  unfoldable pub handle_auth_route :
      (Text → Text → Option Url) → Request → Draws → Stores → Result (Option Response) × Stores
  handle_auth_route parse_url req draws s = routed parse_url req.url req draws s
