-- ===== src/Api/AuthRoutes/Logout.antt =====
-- Leaving a session through the routes.
use monok8s.Prelude.{◌≡◌, refl, Option, none, some, List, Text, lit, is_blank, Bool-cases, inl, inr}
use monok8s.Prelude.Maps.{Map, get-delete}
use monok8s.Services.{Result, ok}
use monok8s.Api.Config.{AppConfig}
use monok8s.Api.Sessions.{Stores, lookup_session, delete_session}
use monok8s.Api.Sessions.Cookies.{session_cookie_name, read_session_cookie}
use monok8s.Api.Login.{Oidc}
use monok8s.Api.AuthRoutes.{
  Url, Request, Draws, send, failure, end_session, oidc_config, present, route_logout, route_me,
}
use monok8s.Api.AuthRoutes.Requests.{
  Addressed, Carries, Carries-value, Carries-session, serve, serve_me, serve_logout,
}

module _ (oidc : Oidc) (with_params : Text → List (Text × Text) → Result Text)
    (derive_code_challenge : Text → Text) (app : AppConfig)
    (parse_url : Text → Text → Option Url) where
  -- Whatever the answer, the session of the cookie is deleted.
  route_logout-stores :
      (req : Request) (s : Stores)
      → (route_logout oidc with_params derive_code_challenge app req s).1
        ≡ (delete_session (present (read_session_cookie req.cookie)) s).1
  unfolding route_logout
  route_logout-stores req s =
      elim (Bool-cases
        (is_blank (end_session oidc with_params derive_code_challenge app (oidc_config app) req))) [
          | inl b ↦ rw b refl
          | inr b ↦ rw b refl
        ]

  -- After a logout, whether OIDC is configured and the identity provider answers or not, a `me` request
  -- with the cookie of that session, at any time, is answered 401.
  pub logout-me :
      (id : Text) (jar jar' : Map Text) (req req' : Request) (url url' : Url) (draws draws' : Draws)
      (s : Stores)
      → Addressed parse_url (lit "POST") (lit "/api/auth/logout") url req
      → Addressed parse_url (lit "GET") (lit "/api/auth/me") url' req'
      → Carries session_cookie_name id jar req
      → Carries session_cookie_name id jar' req'
      → let run = serve oidc with_params derive_code_challenge app parse_url in
        (run req' draws' (run req draws s).1).0
        ≡ ok (some (send 401 (failure (lit "unauthenticated") none)))
  unfolding route_me lookup_session delete_session
  logout-me id jar jar' req req' url url' draws draws' s a a' c c' =
      rw
        (
          serve_logout oidc with_params derive_code_challenge app parse_url url req draws s a,
          serve_me oidc with_params derive_code_challenge app parse_url url' req' draws' _ a',
          Carries-session id jar' req' c',
          route_logout-stores req s,
          Carries-session id jar req c,
          Carries-value session_cookie_name id jar req c,
          get-delete id s.sessions,
        )
        refl
