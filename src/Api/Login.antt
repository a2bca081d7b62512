-- ===== src/Api/Login.antt =====
-- apps/api/src/handlers/auth.ts: the end of a login, on the stores of sessions.ts. The OIDC server
-- (the discovery document, the token endpoint) and the verifier are an argument. The random
-- session ID, and the two times read from the clock, are arguments too.
pub mod Replay
pub mod RoundTrip
pub mod Discovery
use monok8s.Prelude.{
  ℕ, Bool, true, false, not, ◌&&◌, ◌||◌, Option, none, some, List, [], ◌∷◌, Text, lit, ◌==◌,
  is_blank, or_else, join, nat_eq, if◌then◌else◌,
}
use monok8s.Services.{Thrown, error, Result, ok, throw}
use monok8s.Services.Exec.{then_result}
use monok8s.Auth.Zitadel.{VerifiedUser}
use monok8s.Api.Sessions.{
  PendingAuth, Stores, create_session, create_pending_auth, consume_pending_auth,
}

pub record OidcConfig : Type 0 where
  pub issuer : Text
  pub client_id : Text
  pub redirect_uri : Text
  pub scopes : List Text

-- ExchangeCodeForTokenArgs
pub record ExchangeArgs : Type 0 where
  pub token_endpoint : Text
  pub code : Text
  pub code_verifier : Text
  pub redirect_uri : Text
  pub client_id : Text

-- OidcDiscovery, as far as it is used.
pub record OidcDiscovery : Type 0 where
  pub authorization_endpoint : Text
  pub token_endpoint : Text
  pub end_session_endpoint : Option Text

-- What is outside: the discovery document of an issuer, the access token for a code, the user of a token.
pub record Oidc : Type 0 where
  pub discover : Text → Result OidcDiscovery
  pub exchange : ExchangeArgs → Result Text
  pub verify : Text → Result VerifiedUser

pub record CallbackArgs : Type 0 where
  pub config : OidcConfig
  pub state_from_query : Text
  -- No cookie is the empty one.
  pub state_from_cookie : Text
  pub code : Text

pub record CallbackResult : Type 0 where
  pub session_id : Text
  pub return_to : Text

abbrev pub csrf_failed : Thrown
csrf_failed = error (lit "CSRF check failed: state cookie does not match query")

abbrev pub pending_not_found : Thrown
pending_not_found = error (lit "Pending auth not found or expired for state")

module _ (oidc : Oidc) (args : CallbackArgs) where
  -- The three calls: the user, and the access token.
  abbrev pub exchanged : PendingAuth → Result (VerifiedUser × Text)
  exchanged pending = then_result (oidc.discover args.config.issuer) (λ discovery.
      then_result
        (oidc.exchange (record {
          token_endpoint = discovery.token_endpoint;
          code = args.code;
          code_verifier = pending.code_verifier;
          redirect_uri = args.config.redirect_uri;
          client_id = args.config.client_id;
        }))
        (λ token. then_result (oidc.verify token) (λ user. ok (user, token))))

  abbrev pub finish :
      Text
      → ℕ
      → PendingAuth
      → Result (VerifiedUser × Text)
      → Stores
      → Result CallbackResult × Stores
  finish id later pending (ok (user, token)) s = (
    ok (record { session_id = id; return_to = or_else pending.return_to (lit "/") }),
    create_session id user token later s,
  )
  finish id later pending (throw e) s = (throw e, s)

  abbrev pub with_pending : Text → ℕ → Option PendingAuth × Stores → Result CallbackResult × Stores
  with_pending id later (none, s) = (throw pending_not_found, s)
  with_pending id later (some pending, s) = finish id later pending (exchanged pending) s

  -- At `now` the pending login is consumed; at `later` the session is made, under `id`.
  unfoldable pub handle_callback : Text → ℕ → ℕ → Stores → Result CallbackResult × Stores
  handle_callback id now later s =
      if is_blank args.state_from_cookie || not (args.state_from_cookie == args.state_from_query)
      then (throw csrf_failed, s)
      else with_pending id later (consume_pending_auth args.state_from_query now s)

-- AuthorizeUrlArgs
pub record AuthorizeUrlArgs : Type 0 where
  pub authorization_endpoint : Text
  pub client_id : Text
  pub redirect_uri : Text
  pub state : Text
  pub code_challenge : Text
  pub scopes : List Text

pub record LoginResult : Type 0 where
  pub authorize_url : Text
  pub state : Text

abbrev pub default_scopes : List Text
default_scopes = lit "openid" ∷ lit "profile" ∷ lit "email" ∷ []

abbrev pub scopes_or_default : List Text → List Text
scopes_or_default [] = default_scopes
scopes_or_default (x ∷ xs) = x ∷ xs

-- `searchParams.set` of each pair on a `new URL`, which fails where the text is no URL; SHA-256
-- (`deriveCodeChallenge`); and the random state and verifier are arguments.
module _ (oidc : Oidc) (with_params : Text → List (Text × Text) → Result Text)
    (derive_code_challenge : Text → Text) where
  abbrev pub build_authorize_url : AuthorizeUrlArgs → Result Text
  build_authorize_url args = with_params args.authorization_endpoint (
      (lit "response_type", lit "code")
      ∷ (lit "client_id", args.client_id)
      ∷ (lit "redirect_uri", args.redirect_uri)
      ∷ (lit "state", args.state)
      ∷ (lit "code_challenge", args.code_challenge)
      ∷ (lit "code_challenge_method", lit "S256")
      ∷ (lit "scope", join (lit " ") args.scopes)
      ∷ [])

  abbrev pub redirected :
      OidcConfig
      → Option Text
      → Text
      → Text
      → ℕ
      → Result OidcDiscovery
      → Stores
      → Result LoginResult × Stores
  redirected config return_to state verifier now (throw e) s = (throw e, s)
  redirected config return_to state verifier now (ok discovery) s = (
    then_result
        (build_authorize_url (record {
          authorization_endpoint = discovery.authorization_endpoint;
          client_id = config.client_id;
          redirect_uri = config.redirect_uri;
          state = state;
          code_challenge = derive_code_challenge verifier;
          scopes = scopes_or_default config.scopes;
        }))
        (λ url. ok (record { authorize_url = url; state = state })),
    create_pending_auth state verifier return_to now s,
  )

  unfoldable pub handle_login :
      OidcConfig → Option Text → Text → Text → ℕ → Stores → Result LoginResult × Stores
  handle_login config return_to state verifier now s =
      redirected config return_to state verifier now (oidc.discover config.issuer) s

-- `shapeWireUser`: `email.split("@")[0]`.
abbrev pub before_at : Text → Text
before_at [] = []
before_at (c ∷ s) = let rest = before_at s in if nat_eq c b'@' then [] else c ∷ rest

pub record WireUser : Type 0 where
  pub user_id : Text
  pub name : Text
  pub email : Text
  pub tenant_id : Text
  pub tenants : List (Text × Text)
  pub role : Text

abbrev pub shape_wire_user : VerifiedUser → WireUser
shape_wire_user verified = record {
  user_id = verified.user_id;
  name = before_at verified.email;
  email = verified.email;
  tenant_id = verified.tenant_id;
  tenants = (verified.tenant_id, lit "(active)") ∷ [];
  role = lit "viewer";
}
