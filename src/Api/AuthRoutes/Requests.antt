-- ===== src/Api/AuthRoutes/Requests.antt =====
-- Requests that reach a route, and the cookies that they carry.
use monok8s.Prelude.{
  ◌≡◌, refl, ◌∙◌, All, true, false, Option, some, List, [], ◌∷◌, ◌++◌, Text, lit, ◌==◌, is_blank,
  or_else, starts_with,
}
use mathlib.Core.Path.{subst}
use monok8s.Prelude.Maps.{Map, get, All-get}
use monok8s.Services.{Result, ok}
use monok8s.Api.Config.{AppConfig}
use monok8s.Api.Sessions.{Stores}
use monok8s.Api.Sessions.Cookies.{
  session_cookie_name, pending_cookie_name, read_session_cookie, read_pending_cookie,
}
use monok8s.Api.Sessions.Cookies.RoundTrip.{IsCookie, cookie_header, parse_cookie_header-get}
use monok8s.Api.Sessions.Cookies.Browser.{IsKept, Sets, IsKept-Sets}
use monok8s.Api.Login.{Oidc}
use monok8s.Api.AuthRoutes.{
  Url, Request, Response, Draws, or_500, route_login, route_callback, route_me, route_logout,
  dispatch, handle_auth_route,
}

-- The request has this method, and a URL under this path.
abbrev pub Addressed : (Text → Text → Option Url) → Text → Text → Url → Request → Type 0
Addressed parse_url method path url req =
    (req.method ≡ method)
    × ((url.pathname ≡ path)
        × ((raw : Text) × ((req.url ≡ some raw)
              × ((starts_with (lit "/api/auth/") raw ≡ true)
                  × (parse_url raw (lit "http://" ++ or_else req.host (lit "localhost"))
                      ≡ some url)))))

-- The request carries the cookies of a jar, and under this name this value.
abbrev pub Carries : Text → Text → Map Text → Request → Type 0
Carries name value jar req =
    All IsCookie jar × ((req.cookie ≡ cookie_header jar) × (get name jar ≡ some value))

-- The cookies that an answer sets.
abbrev pub set_cookies : Result (Option Response) → List Text
set_cookies (ok (some r)) = r.set_cookie
set_cookies _ = []

-- A browser's request after an answer with these `Set-Cookie` texts: its jar keeps what they set and drops
-- what they end, may hold any other cookies that the parser can carry, and is what the request sends.
pub record Follows (texts : List Text) (jar : Map Text) (req : Request) : Type 0 where
  pub plain : All IsCookie jar
  pub kept : All (IsKept jar) texts
  pub sends : req.cookie ≡ cookie_header jar

pub Carries-Follows :
    (texts : List Text) (c name value : Text) (cs : List Text) (jar : Map Text) (req : Request)
    → texts ≡ c ∷ cs
    → Sets c name value
    → Follows texts jar req
    → Carries name value jar req
Carries-Follows texts c name value cs jar req e r f =
    let kept = subst (λ ts. All (IsKept jar) ts) e f.kept in
    (f.plain, (f.sends, IsKept-Sets jar c name value r kept.0))

pub Carries-value :
    (name value : Text) (jar : Map Text) (req : Request)
    → Carries name value jar req
    → is_blank value ≡ false
Carries-value name value jar req c = (All-get IsCookie name value jar c.0 c.1.1).1.1

pub Carries-session :
    (value : Text) (jar : Map Text) (req : Request)
    → Carries session_cookie_name value jar req
    → read_session_cookie req.cookie ≡ some value
unfolding read_session_cookie
Carries-session value jar req c =
    rw (c.1.0) (parse_cookie_header-get session_cookie_name jar c.0 ∙ c.1.1)

pub Carries-pending :
    (value : Text) (jar : Map Text) (req : Request)
    → Carries pending_cookie_name value jar req
    → read_pending_cookie req.cookie ≡ some value
unfolding read_pending_cookie
Carries-pending value jar req c =
    rw (c.1.0) (parse_cookie_header-get pending_cookie_name jar c.0 ∙ c.1.1)

module _ (oidc : Oidc) (with_params : Text → List (Text × Text) → Result Text)
    (derive_code_challenge : Text → Text) (app : AppConfig)
    (parse_url : Text → Text → Option Url) where
  abbrev pub serve : Request → Draws → Stores → Result (Option Response) × Stores
  serve = handle_auth_route oidc with_params derive_code_challenge app parse_url

  abbrev pub wrapped : Response × Stores → Result (Option Response) × Stores
  wrapped (r, s) = (ok (some r), s)

  serve-dispatch :
      (method path : Text) (url : Url) (req : Request) (draws : Draws) (s : Stores)
      → Addressed parse_url method path url req
      → serve req draws s
        ≡ wrapped (dispatch oidc with_params derive_code_challenge app url req draws s)
  unfolding handle_auth_route
  serve-dispatch method path url req draws s a = rw (a.1.1.1.0, a.1.1.1.1.0, a.1.1.1.1.1) refl

  pub serve_login :
      (url : Url) (req : Request) (draws : Draws) (s : Stores)
      → Addressed parse_url (lit "GET") (lit "/api/auth/login") url req
      → serve req draws s
        ≡ wrapped (
            or_500
              (lit "login_failed")
              (route_login oidc with_params derive_code_challenge app url draws s))
  unfolding lit ◌==◌
  serve_login url req draws s a =
      serve-dispatch (lit "GET") (lit "/api/auth/login") url req draws s a ∙ rw (a.1.0, a.0) refl

  pub serve_callback :
      (url : Url) (req : Request) (draws : Draws) (s : Stores)
      → Addressed parse_url (lit "GET") (lit "/api/auth/callback") url req
      → serve req draws s
        ≡ wrapped (
            or_500
              (lit "callback_failed")
              (route_callback oidc with_params derive_code_challenge app req url draws s))
  unfolding lit ◌==◌
  serve_callback url req draws s a =
      serve-dispatch (lit "GET") (lit "/api/auth/callback") url req draws s a ∙ rw (a.1.0, a.0) refl

  pub serve_me :
      (url : Url) (req : Request) (draws : Draws) (s : Stores)
      → Addressed parse_url (lit "GET") (lit "/api/auth/me") url req
      → serve req draws s
        ≡ wrapped (route_me oidc with_params derive_code_challenge app req draws s)
  unfolding lit ◌==◌
  serve_me url req draws s a =
      serve-dispatch (lit "GET") (lit "/api/auth/me") url req draws s a ∙ rw (a.1.0, a.0) refl

  pub serve_logout :
      (url : Url) (req : Request) (draws : Draws) (s : Stores)
      → Addressed parse_url (lit "POST") (lit "/api/auth/logout") url req
      → serve req draws s ≡ wrapped (route_logout oidc with_params derive_code_challenge app req s)
  unfolding lit ◌==◌
  serve_logout url req draws s a =
      serve-dispatch (lit "POST") (lit "/api/auth/logout") url req draws s a ∙ rw (a.1.0, a.0) refl
