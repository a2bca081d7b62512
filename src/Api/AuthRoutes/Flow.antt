-- ===== src/Api/AuthRoutes/Flow.antt =====
-- A browser that logs in through the routes.
use monok8s.Prelude.{
  ◌+◌, ◌<◌, ◌≡◌, ◌∙◌, ap, false, Option, none, some, List, [], ◌∷◌, Text, lit, is_blank, or_else,
}
use monok8s.Prelude.Maps.{Map}
use monok8s.Services.{Result, ok}
use monok8s.Auth.Zitadel.{VerifiedUser}
use monok8s.Api.Config.{AppConfig}
use monok8s.Api.Sessions.{Stores, session_ttl_ms, pending_ttl_ms}
use monok8s.Api.Sessions.Cookies.{
  session_cookie_name, pending_cookie_name, format_session_cookie, format_pending_cookie,
  format_clear_pending_cookie,
}
use monok8s.Api.Sessions.Cookies.RoundTrip.{NoSemicolon}
use monok8s.Api.Sessions.Cookies.Browser.{format_session_cookie-Sets, format_pending_cookie-Sets}
use monok8s.Api.Login.{
  OidcConfig, Oidc, OidcDiscovery, build_authorize_url, scopes_or_default, shape_wire_user,
}
use monok8s.Api.AuthRoutes.{
  Url, Request, Draws, Response, or_500, redirect, send, user, cookie_flags, oidc_config,
}
use monok8s.Api.AuthRoutes.Requests.{
  wrapped, set_cookies, Follows, Carries-Follows, Addressed, serve, serve_login, serve_callback,
  serve_me,
}
use monok8s.Api.AuthRoutes.Turns.{me_of_session, login_of_config, callback_of_pending}

module _ (oidc : Oidc) (with_params : Text → List (Text × Text) → Result Text)
    (derive_code_challenge : Text → Text) (app : AppConfig)
    (parse_url : Text → Text → Option Url) where
  abbrev run : Request → Draws → Stores → Result (Option Response) × Stores
  run = serve oidc with_params derive_code_challenge app parse_url

  abbrev or_failed : Text → Result Response × Stores → Result (Option Response) × Stores
  or_failed message r =
      wrapped oidc with_params derive_code_challenge app parse_url (or_500 message r)

  -- A browser logs in. Its login request is redirected to the identity provider. Its callback, within five
  -- minutes, with the state of that redirect in the query and with the cookies that the browser has
  -- kept from the Set-Cookie header of the login's answer, is redirected to the page that the login asked to
  -- return to. Its `me` request, within eight hours, with the cookies kept from the callback's
  -- answer, is answered 200 with the user of the token that was received. OIDC is configured, the
  -- provider answers discovery, exchange and verification, the state, the session ID and the cookie domain
  -- have no semicolon, and the browser's cookies are ones that the parser can carry.
  pub login-callback-me :
      (cfg : OidcConfig) (d : OidcDiscovery) (link code token : Text) (usr : VerifiedUser)
      (jar2 jar3 : Map Text) (req1 req2 req3 : Request) (url1 url2 url3 : Url)
      (draws1 draws2 draws3 : Draws) (s : Stores)
      → oidc_config app ≡ some cfg
      → oidc.discover cfg.issuer ≡ ok d
      → build_authorize_url oidc with_params derive_code_challenge (record {
        authorization_endpoint = d.authorization_endpoint;
        client_id = cfg.client_id;
        redirect_uri = cfg.redirect_uri;
        state = draws1.state;
        code_challenge = derive_code_challenge draws1.verifier;
        scopes = scopes_or_default cfg.scopes;
      })
        ≡ ok link
      → oidc.exchange (record {
        token_endpoint = d.token_endpoint;
        code = code;
        code_verifier = draws1.verifier;
        redirect_uri = cfg.redirect_uri;
        client_id = cfg.client_id;
      })
        ≡ ok token
      → oidc.verify token ≡ ok usr
      → Addressed parse_url (lit "GET") (lit "/api/auth/login") url1 req1
      → Addressed parse_url (lit "GET") (lit "/api/auth/callback") url2 req2
      → Addressed parse_url (lit "GET") (lit "/api/auth/me") url3 req3
      → url2.param (lit "error") ≡ none
      → url2.param (lit "state") ≡ some draws1.state
      → url2.param (lit "code") ≡ some code
      → is_blank code ≡ false
      → NoSemicolon app.cookie_domain
      → NoSemicolon draws1.state
      → NoSemicolon draws2.session_id
      → Follows (set_cookies (run req1 draws1 s).0) jar2 req2
      → Follows (set_cookies (run req2 draws2 (run req1 draws1 s).1).0) jar3 req3
      → draws2.now < draws1.now + pending_ttl_ms
      → draws3.now < draws2.later + session_ttl_ms
      → let (r1, s1) = run req1 draws1 s in
        let (r2, s2) = run req2 draws2 s1 in
        let (r3, s3) = run req3 draws3 s2 in
        (r1
          ≡ ok (some (redirect link (format_pending_cookie draws1.state (cookie_flags app) ∷ []))))
        × ((r2
              ≡ ok (
                  some (
                    redirect (or_else (url1.param (lit "returnTo")) (lit "/")) (
                      format_session_cookie draws2.session_id (cookie_flags app)
                      ∷ format_clear_pending_cookie (cookie_flags app)
                      ∷ []))))
            × (r3 ≡ ok (some (send 200 (user (shape_wire_user usr))))))
  login-callback-me cfg d link code token usr jar2 jar3 req1 req2 req3 url1 url2 url3 draws1 draws2
        draws3 s c di b x v a1 a2 a3 e q k n cd st id f2 f3 t2 t3 =
      let first =
        serve_login oidc with_params derive_code_challenge app parse_url url1 req1 draws1 s a1
        ∙ ap (or_failed (lit "login_failed")) (
            login_of_config oidc with_params derive_code_challenge app parse_url cfg d link url1
              draws1 s c di b) in
      let p2 =
        Carries-Follows (set_cookies (run req1 draws1 s).0)
          (format_pending_cookie draws1.state (cookie_flags app)) pending_cookie_name draws1.state
          [] jar2 req2 (ap (λ r. set_cookies r.0) first)
          (format_pending_cookie-Sets draws1.state app.cookie_secure app.cookie_domain st cd) f2 in
      let second =
        serve_callback oidc with_params derive_code_challenge app parse_url url2 req2 draws2 _ a2
        ∙ ap (or_failed (lit "callback_failed")) (
            callback_of_pending oidc with_params derive_code_challenge app parse_url cfg
              draws1.state code draws1.verifier token usr (url1.param (lit "returnTo")) draws1.now d
              jar2 req2 url2 draws2 s c e q k n p2 t2 di x v) in
      let after_first = ap (λ r. run req2 draws2 r.1) first ∙ second in
      let p3 =
        Carries-Follows (set_cookies (run req2 draws2 (run req1 draws1 s).1).0)
          (format_session_cookie draws2.session_id (cookie_flags app)) session_cookie_name
          draws2.session_id (format_clear_pending_cookie (cookie_flags app) ∷ []) jar3 req3
          (ap (λ r. set_cookies r.0) after_first)
          (format_session_cookie-Sets draws2.session_id app.cookie_secure app.cookie_domain id cd)
          f3 in
      let third =
        ap (λ r. r.0)
          (serve_me oidc with_params derive_code_challenge app parse_url url3 req3 draws3 _ a3)
        ∙ ap (λ r. ok (some r))
            (me_of_session oidc with_params derive_code_challenge app parse_url draws2.session_id
              token usr draws2.later jar3 req3 draws3 _ p3 t3) in
      (
        ap (λ r. r.0) first,
        (ap (λ r. r.0) after_first, ap (λ r. (run req3 draws3 r.1).0) after_first ∙ third),
      )
