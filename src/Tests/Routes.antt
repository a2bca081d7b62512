-- ===== src/Tests/Routes.antt =====
-- apps/api: the configuration and the HTTP routes of the login.
use monok8s.Prelude.{
  ◌≡◌, refl, true, Option, none, some, List, [], ◌∷◌, ◌++◌, Text, lit, ◌==◌, if◌then◌else◌, arith,
}
use monok8s.Prelude.Maps.{Map}
use monok8s.Services.{Result, ok}
use monok8s.Api.Config.{AppConfig, ProcessEnv, Cloud, Environment, load_config}
use monok8s.Api.Config.Parsing.{Reads, load_config-Reads}
use monok8s.Api.Sessions.{Stores}
use monok8s.Api.Sessions.Cookies.{
  session_cookie_name, pending_cookie_name, format_session_cookie, format_pending_cookie,
  format_clear_pending_cookie,
}
use monok8s.Api.Sessions.Cookies.RoundTrip.{IsPlain-all, cookie_header}
use monok8s.Api.Login.{Oidc, OidcConfig, OidcDiscovery, shape_wire_user}
use monok8s.Api.AuthRoutes.{
  Url, Request, Response, Draws, Body, no_body, redirect, send, failure, user, cookie_flags,
  present, route_me,
}
use monok8s.Api.AuthRoutes.Requests.{Carries, Follows, set_cookies, serve}
use monok8s.Api.AuthRoutes.Flow.{login-callback-me}
use monok8s.Api.AuthRoutes.Logout.{logout-me}
use monok8s.Fixtures.{alice_user}

abbrev unset : ProcessEnv
unset = record {
  monok8s_cloud = some (lit "gcp");
  monok8s_region = none;
  monok8s_environment = none;
  alertmanager_url = none;
  nats_url = none;
  zitadel_issuer = none;
  zitadel_client_id = none;
  zitadel_redirect_uri = none;
  monok8s_cookie_domain = none;
  monok8s_cookie_secure = none;
}

load_config-Reads_example : Reads (lit "gcp") (lit "production") unset (load_config (λ t. t) unset)
load_config-Reads_example = load_config-Reads (λ t. t) unset

abbrev pub app : AppConfig
app = record {
  cloud = Cloud.gcp;
  region = lit "europe-west1";
  environment = Environment.production;
  alertmanager_url = [];
  nats_url = [];
  zitadel_issuer = lit "https://id.test";
  zitadel_client_id = lit "spa";
  zitadel_redirect_uri = lit "https://app.test/api/auth/callback";
  cookie_domain = [];
  cookie_secure = true;
}

abbrev config : OidcConfig
config = record {
  issuer = lit "https://id.test";
  client_id = lit "spa";
  redirect_uri = lit "https://app.test/api/auth/callback";
  scopes = [];
}

abbrev discovery : OidcDiscovery
discovery = record {
  authorization_endpoint = lit "https://id.test/auth";
  token_endpoint = lit "https://id.test/token";
  end_session_endpoint = none;
}

abbrev pub oidc : Oidc
oidc = record {
  discover = λ issuer. ok discovery;
  exchange = λ a. ok (lit "jwt");
  verify = λ t. ok alice_user;
}

abbrev pub with_params : Text → List (Text × Text) → Result Text
with_params base params = ok (base ++ lit "?st")

abbrev pub draws : Draws
draws = record {
  state = lit "st";
  verifier = lit "verifier";
  session_id = lit "ab12";
  now = 5;
  later = 6;
}

abbrev params : Text → Option Text
params name =
    if name == lit "state"
    then some (lit "st")
    else if name == lit "code"
    then some (lit "code1")
    else none

abbrev url_of : Text → Url
url_of path = record { pathname = path; param = params }

-- These requests have no query of their own in the text; the parser adds the parameters.
abbrev pub parse_url : Text → Text → Option Url
parse_url raw base = some (url_of raw)

abbrev pub request : Text → Text → Text → Request
request method path cookie = record {
  method = method;
  url = some path;
  cookie = cookie;
  host = some (lit "app.test");
  forwarded_proto = none;
  forwarded_host = none;
}

abbrev pending_jar : Map Text
pending_jar = (pending_cookie_name, lit "st") ∷ []

abbrev pub session_jar : Map Text
session_jar = (lit "theme", lit "dark") ∷ (session_cookie_name, lit "ab12") ∷ []

abbrev no_stores : Stores
no_stores = record { sessions = []; pending = [] }

abbrev login_request : Request
login_request = request (lit "GET") (lit "/api/auth/login") []

abbrev callback_request : Request
callback_request = request (lit "GET") (lit "/api/auth/callback") (cookie_header pending_jar)

abbrev pub me_request : Request
me_request = request (lit "GET") (lit "/api/auth/me") (cookie_header session_jar)

abbrev logout_request : Request
logout_request = request (lit "POST") (lit "/api/auth/logout") (cookie_header session_jar)

abbrev run : Request → Draws → Stores → Result (Option Response) × Stores
run = serve oidc with_params (λ v. v) app parse_url

pending-Carries : Carries pending_cookie_name (lit "st") pending_jar callback_request
unfolding lit ◌==◌
pending-Carries = (
  ((IsPlain-all pending_cookie_name refl, (IsPlain-all (lit "st") refl, refl)), tt),
  (refl, refl),
)

session-Carries :
    (method path : Text)
    → Carries session_cookie_name
        (lit "ab12")
        session_jar
        (request method path (cookie_header session_jar))
unfolding lit ◌==◌
session-Carries method path = (
  (
    (IsPlain-all (lit "theme") refl, (IsPlain-all (lit "dark") refl, refl)),
    ((IsPlain-all session_cookie_name refl, (IsPlain-all (lit "ab12") refl, refl)), tt),
  ),
  (refl, refl),
)

login_request-Follows :
    Follows (set_cookies (run login_request draws no_stores).0) pending_jar callback_request
unfolding lit ◌==◌ monok8s.Api.AuthRoutes.oidc_config monok8s.Api.AuthRoutes.handle_auth_route
    monok8s.Api.AuthRoutes.route_login monok8s.Api.Login.handle_login
    monok8s.Api.Sessions.Cookies.format_cookie monok8s.Api.Sessions.Cookies.format_pending_cookie
    monok8s.Db.Ask.decimal
login_request-Follows = record { plain = pending-Carries.0; kept = (refl, tt); sends = refl }

callback_request-Follows :
    Follows
      (set_cookies (run callback_request draws (run login_request draws no_stores).1).0)
      session_jar
      me_request
unfolding lit ◌==◌ monok8s.Api.AuthRoutes.oidc_config monok8s.Api.AuthRoutes.handle_auth_route
    monok8s.Api.AuthRoutes.route_login monok8s.Api.Login.handle_login
    monok8s.Api.Sessions.Cookies.format_cookie monok8s.Api.Sessions.Cookies.format_pending_cookie
    monok8s.Db.Ask.decimal monok8s.Api.AuthRoutes.route_callback monok8s.Api.Login.handle_callback
    monok8s.Api.Sessions.Cookies.format_session_cookie
    monok8s.Api.Sessions.Cookies.format_clear_pending_cookie
    monok8s.Api.Sessions.Cookies.read_pending_cookie
    monok8s.Api.Sessions.Cookies.parse_cookie_header monok8s.Api.Sessions.create_pending_auth
    monok8s.Api.Sessions.consume_pending_auth monok8s.Api.Sessions.create_session
callback_request-Follows = record {
  plain = (session-Carries (lit "GET") (lit "/api/auth/me")).0;
  kept = (refl, (refl, tt));
  sends = refl;
}

login-callback-me_example :
    let (r1, s1) = run login_request draws no_stores in
    let (r2, s2) = run callback_request draws s1 in
    let (r3, s3) = run me_request draws s2 in
    (r1
      ≡ ok (
          some (
            redirect
              (lit "https://id.test/auth?st")
              (format_pending_cookie (lit "st") (cookie_flags app) ∷ []))))
    × ((r2
          ≡ ok (
              some (
                redirect (lit "/") (
                  format_session_cookie (lit "ab12") (cookie_flags app)
                  ∷ format_clear_pending_cookie (cookie_flags app)
                  ∷ []))))
        × (r3 ≡ ok (some (send 200 (user (shape_wire_user alice_user))))))
unfolding lit ◌==◌ monok8s.Api.AuthRoutes.oidc_config
login-callback-me_example =
    login-callback-me oidc with_params (λ v. v) app parse_url config discovery
      (lit "https://id.test/auth?st") (lit "code1") (lit "jwt") alice_user pending_jar session_jar
      login_request callback_request me_request (url_of (lit "/api/auth/login"))
      (url_of (lit "/api/auth/callback")) (url_of (lit "/api/auth/me")) draws draws draws no_stores
      refl refl refl refl refl (refl, (refl, (_, (refl, (refl, refl)))))
      (refl, (refl, (_, (refl, (refl, refl))))) (refl, (refl, (_, (refl, (refl, refl))))) refl refl
      refl refl tt (refl, (refl, tt)) (refl, (refl, (refl, (refl, tt)))) login_request-Follows
      callback_request-Follows (omega arith) (omega arith)

logout-me_example :
    (run me_request draws (run logout_request draws no_stores).1).0
    ≡ ok (some (send 401 (failure (lit "unauthenticated") none)))
unfolding lit ◌==◌
logout-me_example =
    logout-me oidc with_params (λ v. v) app parse_url (lit "ab12") session_jar session_jar
      logout_request me_request (url_of (lit "/api/auth/logout")) (url_of (lit "/api/auth/me"))
      draws draws no_stores (refl, (refl, (_, (refl, (refl, refl)))))
      (refl, (refl, (_, (refl, (refl, refl)))))
      (session-Carries (lit "POST") (lit "/api/auth/logout"))
      (session-Carries (lit "GET") (lit "/api/auth/me"))
