-- ===== src/Api/AuthRoutes/Responses.antt =====
-- apps/api/src/routers/auth.ts: the requests and responses, and what it reads of the configuration.
use monok8s.Prelude.{
  ℕ, ◌||◌, Option, none, some, List, [], Text, lit, is_blank, or_else, if◌then◌else◌,
}
use monok8s.Services.{Result, ok, throw}
use monok8s.Services.Exec.{detail_of}
use monok8s.Api.Config.{AppConfig}
use monok8s.Api.Sessions.{Stores}
use monok8s.Api.Sessions.Cookies.{CookieFlags}
use monok8s.Api.Login.{OidcConfig, WireUser}

-- The parsed URL: its path, and `searchParams.get`.
pub record Url : Type 0 where
  pub pathname : Text
  pub param : Text → Option Text

-- http.IncomingMessage, as far as it is read. An absent cookie header is the empty one.
pub record Request : Type 0 where
  pub method : Text
  pub url : Option Text
  pub cookie : Text
  pub host : Option Text
  pub forwarded_proto : Option Text
  pub forwarded_host : Option Text

-- What is sent as a body: nothing, `{ error, detail? }`, or a user.
pub data Body : Type 0 where
  no_body : Body
  failure : Text → Option Text → Body
  user : WireUser → Body

pub record Response : Type 0 where
  pub status : ℕ
  pub location : Option Text
  pub set_cookie : List Text
  pub body : Body

-- What one request draws: `generateState`, `generateCodeVerifier`, a session ID, and the clock.
pub record Draws : Type 0 where
  pub state : Text
  pub verifier : Text
  pub session_id : Text
  pub now : ℕ
  pub later : ℕ

abbrev pub send : ℕ → Body → Response
send status body = record { status = status; location = none; set_cookie = []; body = body }

abbrev pub redirect : Text → List Text → Response
redirect location cookies = record {
  status = 302;
  location = some location;
  set_cookie = cookies;
  body = no_body;
}

abbrev pub not_configured : Response
not_configured = send 503 (failure (lit "oidc_not_configured") none)

module _ (app : AppConfig) where
  abbrev pub cookie_flags : CookieFlags
  cookie_flags = record {
    secure = app.cookie_secure;
    domain = app.cookie_domain;
    path = none;
    max_age_seconds = none;
  }

  unfoldable pub oidc_config : Option OidcConfig
  oidc_config =
      if is_blank app.zitadel_issuer
        || (is_blank app.zitadel_client_id || is_blank app.zitadel_redirect_uri)
      then none
      else some (record {
        issuer = app.zitadel_issuer;
        client_id = app.zitadel_client_id;
        redirect_uri = app.zitadel_redirect_uri;
        scopes = [];
      })

-- `.catch`: a route that throws is answered with 500.
abbrev pub or_500 : Text → Result Response × Stores → Response × Stores
or_500 code (ok r, s) = (r, s)
or_500 code (throw e, s) = (send 500 (failure code (some (detail_of e))), s)

-- `searchParams.get` of a parameter that has to be there: null and the empty text are one.
abbrev pub present : Option Text → Text
present o = or_else o []
