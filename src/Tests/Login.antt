-- ===== src/Tests/Login.antt =====
-- apps/api: sessions, cookies and logins.
use monok8s.Prelude.{◌≡◌, refl, none, [], ◌∷◌, Text, lit}
use monok8s.Prelude.Maps.{Map, get}
use monok8s.Services.{ok, throw, Thrown}
use monok8s.Api.Sessions.{Stores, create_pending_auth}
use monok8s.Api.Sessions.Cookies.{parse_cookie_header}
use monok8s.Api.Sessions.Cookies.RoundTrip.{cookie_header, parse_cookie_header-get}
use monok8s.Api.Login.{Oidc, CallbackArgs, handle_callback}
use monok8s.Api.Login.Replay.{handle_callback-once}
use monok8s.Fixtures.{alice_user}

abbrev no_stores : Stores
no_stores = record { sessions = []; pending = [] }

abbrev one_login : Stores
one_login = create_pending_auth (lit "st") (lit "verifier") none 5 no_stores

abbrev cookies : Map Text
cookies = (lit "theme", lit "dark") ∷ (lit "monok8s_session", lit "ab12") ∷ []

parse_cookie_header-get_example :
    parse_cookie_header (cookie_header cookies) (lit "monok8s_session")
    ≡ get (lit "monok8s_session") cookies
unfolding lit
parse_cookie_header-get_example = parse_cookie_header-get (lit "monok8s_session") cookies (
  ((refl, (refl, (refl, (refl, (refl, tt))))), ((refl, (refl, (refl, (refl, tt)))), refl)),
  (
    (
      (
        refl,
        (
          refl,
          (
            refl,
            (
              refl,
              (
                refl,
                (refl, (refl, (refl, (refl, (refl, (refl, (refl, (refl, (refl, (refl, tt)))))))))),
              ),
            ),
          ),
        ),
      ),
      ((refl, (refl, (refl, (refl, tt)))), refl),
    ),
    tt,
  ),
)

abbrev oidc : Oidc
oidc = record {
  discover = λ issuer. ok (record {
    authorization_endpoint = lit "https://id.test/auth";
    token_endpoint = lit "https://id.test/token";
    end_session_endpoint = none;
  });
  exchange = λ a. ok (lit "jwt");
  verify = λ token. ok alice_user;
}

abbrev callback : CallbackArgs
callback = record {
  config = record {
    issuer = lit "https://id.test";
    client_id = lit "c";
    redirect_uri = lit "r";
    scopes = [];
  };
  state_from_query = lit "st";
  state_from_cookie = lit "st";
  code = lit "code";
}

handle_callback-once_example :
    (e : Thrown) × (handle_callback oidc callback
        (lit "s2")
        8
        9
        (handle_callback oidc callback (lit "s1") 6 7 one_login).1
      ≡ (throw e, (handle_callback oidc callback (lit "s1") 6 7 one_login).1))
unfolding lit
handle_callback-once_example =
    handle_callback-once oidc callback (lit "s1") 6 7 oidc callback (lit "s2") 8 9 one_login refl
      refl refl
