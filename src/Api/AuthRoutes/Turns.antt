-- ===== src/Api/AuthRoutes/Turns.antt =====
-- apps/api/src/routers/auth.ts: the three requests of a login, each by itself.
use monok8s.Prelude.{
  ℕ, ◌+◌, ◌<◌, ◌≡◌, refl, false, Option, none, some, List, [], ◌∷◌, Text, lit, is_blank, or_else,
  lt→leb-false,
}
use monok8s.Prelude.Maps.{Map, delete, get-set}
use monok8s.Services.{Result, ok}
use monok8s.Auth.Zitadel.{VerifiedUser}
use monok8s.Api.Config.{AppConfig}
use monok8s.Api.Sessions.{
  Stores, session_ttl_ms, pending_ttl_ms, create_session, create_pending_auth, lookup_session,
}
use monok8s.Api.Sessions.Cookies.{
  session_cookie_name, pending_cookie_name, format_session_cookie, format_pending_cookie,
  format_clear_pending_cookie,
}
use monok8s.Api.Login.{
  OidcConfig, Oidc, OidcDiscovery, build_authorize_url, scopes_or_default, shape_wire_user,
  handle_login,
}
use monok8s.Api.Login.Replay.{handle_callback-completes}
use monok8s.Api.AuthRoutes.{
  Url, Request, Draws, redirect, send, user, cookie_flags, oidc_config, route_login, route_callback,
  route_me,
}
use monok8s.Api.AuthRoutes.Requests.{Carries, Carries-value, Carries-session, Carries-pending}

module _ (oidc : Oidc) (with_params : Text → List (Text × Text) → Result Text)
    (derive_code_challenge : Text → Text) (app : AppConfig)
    (parse_url : Text → Text → Option Url) where
  -- A session that was just made is answered with its user.
  pub me_of_session :
      (id token : Text) (usr : VerifiedUser) (made : ℕ) (jar : Map Text) (req : Request)
      (draws : Draws) (s : Stores)
      → Carries session_cookie_name id jar req
      → draws.now < made + session_ttl_ms
      → (route_me oidc with_params derive_code_challenge app req draws
          (create_session id usr token made s)).0
        ≡ send 200 (user (shape_wire_user usr))
  unfolding route_me lookup_session create_session
  me_of_session id token usr made jar req draws s c t =
      rw
        (
          Carries-session id jar req c,
          Carries-value session_cookie_name id jar req c,
          get-set id
              (record { user = usr; access_token = token; expires_at = made + session_ttl_ms })
              s.sessions,
          lt→leb-false (made + session_ttl_ms) draws.now t,
        )
        refl

  -- The login route, where discovery and the URL class succeed.
  pub login_of_config :
      (cfg : OidcConfig) (d : OidcDiscovery) (link : Text) (url : Url) (draws : Draws) (s : Stores)
      → oidc_config app ≡ some cfg
      → oidc.discover cfg.issuer ≡ ok d
      → build_authorize_url oidc with_params derive_code_challenge (record {
        authorization_endpoint = d.authorization_endpoint;
        client_id = cfg.client_id;
        redirect_uri = cfg.redirect_uri;
        state = draws.state;
        code_challenge = derive_code_challenge draws.verifier;
        scopes = scopes_or_default cfg.scopes;
      })
        ≡ ok link
      → route_login oidc with_params derive_code_challenge app url draws s ≡ (
        ok (redirect link (format_pending_cookie draws.state (cookie_flags app) ∷ [])),
        create_pending_auth draws.state draws.verifier (url.param (lit "returnTo")) draws.now s,
      )
  unfolding route_login handle_login
  login_of_config cfg d link url draws s c e b = rw (c, e, b) refl

  -- The callback route, for a login that was begun in time by the same browser.
  pub callback_of_pending :
      (cfg : OidcConfig) (st code verifier token : Text) (usr : VerifiedUser)
      (return_to : Option Text) (start : ℕ) (d : OidcDiscovery) (jar : Map Text) (req : Request)
      (url : Url) (draws : Draws) (s : Stores)
      → oidc_config app ≡ some cfg
      → url.param (lit "error") ≡ none
      → url.param (lit "state") ≡ some st
      → url.param (lit "code") ≡ some code
      → is_blank code ≡ false
      → Carries pending_cookie_name st jar req
      → draws.now < start + pending_ttl_ms
      → oidc.discover cfg.issuer ≡ ok d
      → oidc.exchange (record {
        token_endpoint = d.token_endpoint;
        code = code;
        code_verifier = verifier;
        redirect_uri = cfg.redirect_uri;
        client_id = cfg.client_id;
      })
        ≡ ok token
      → oidc.verify token ≡ ok usr
      → route_callback oidc with_params derive_code_challenge app req url draws
          (create_pending_auth st verifier return_to start s)
        ≡ (
          ok (
              redirect (or_else return_to (lit "/")) (
                format_session_cookie draws.session_id (cookie_flags app)
                ∷ format_clear_pending_cookie (cookie_flags app)
                ∷ [])),
          create_session draws.session_id usr token draws.later (record {
            sessions = s.sessions;
            pending = delete st (create_pending_auth st verifier return_to start s).pending;
          }),
        )
  unfolding route_callback
  callback_of_pending cfg st code verifier token usr return_to start d jar req url draws s c e q k n
        cookie t di x v =
      rw
        (
          c,
          e,
          q,
          k,
          n,
          Carries-pending st jar req cookie,
          Carries-value pending_cookie_name st jar req cookie,
          handle_callback-completes oidc
              (record { config = cfg; state_from_query = st; state_from_cookie = st; code = code })
              verifier return_to draws.session_id start draws.now draws.later s usr token
              (Carries-value pending_cookie_name st jar req cookie) refl t (rw (di, x, v) refl),
        )
        refl
