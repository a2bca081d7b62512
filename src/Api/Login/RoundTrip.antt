-- ===== src/Api/Login/RoundTrip.antt =====
-- From the redirect to the session.
use monok8s.Prelude.{
  ℕ, ◌+◌, ◌<◌, ◌≡◌, refl, sym, ap, false, Option, List, Text, lit, is_blank, or_else, arith,
}
use monok8s.Prelude.Maps.{delete}
use monok8s.Services.{Result, ok, throw}
use monok8s.Auth.Zitadel.{VerifiedUser}
use monok8s.Api.Sessions.{Stores, pending_ttl_ms, create_session, create_pending_auth}
use monok8s.Api.Login.{
  Oidc, OidcDiscovery, LoginResult, CallbackArgs, OidcConfig, redirected, handle_login,
  handle_callback,
}
use monok8s.Api.Login.Replay.{handle_callback-completes}

module _ (oidc : Oidc) (with_params : Text → List (Text × Text) → Result Text)
    (derive_code_challenge : Text → Text) where
  stored :
      (config : OidcConfig) (return_to : Option Text) (state verifier : Text) (now : ℕ)
      (d : Result OidcDiscovery) (s s1 : Stores) (r : LoginResult)
      → redirected oidc with_params derive_code_challenge config return_to state verifier now d s
        ≡ (ok r, s1)
      → create_pending_auth state verifier return_to now s ≡ s1
  stored config return_to state verifier now (ok d) s s1 r e = ap (λ p. p.1) e
  stored config return_to state verifier now (throw x) s s1 r e = absurd (grind arith)

  -- A login that began with the state and verifier of `handle_login`, and whose callback brings that
  -- state in cookie and query within five minutes, is completed: the code is exchanged with that
  -- verifier, and the answer is a session for the user of the token received, and the page that the
  -- login asked to return to. The state is not empty, and discovery, exchange and verification succeed.
  pub handle_login-handle_callback :
      (args : CallbackArgs) (return_to : Option Text) (verifier id token : Text)
      (user : VerifiedUser) (start now later : ℕ) (discovery : OidcDiscovery) (s s1 : Stores)
      (r : LoginResult)
      → handle_login oidc with_params derive_code_challenge args.config return_to
          args.state_from_query verifier start s
        ≡ (ok r, s1)
      → is_blank args.state_from_query ≡ false
      → args.state_from_cookie ≡ args.state_from_query
      → now < start + pending_ttl_ms
      → oidc.discover args.config.issuer ≡ ok discovery
      → oidc.exchange (record {
        token_endpoint = discovery.token_endpoint;
        code = args.code;
        code_verifier = verifier;
        redirect_uri = args.config.redirect_uri;
        client_id = args.config.client_id;
      })
        ≡ ok token
      → oidc.verify token ≡ ok user
      → handle_callback oidc args id now later s1 ≡ (
        ok (record { session_id = id; return_to = or_else return_to (lit "/") }),
        create_session id user token later
            (record { sessions = s.sessions; pending = delete args.state_from_query s1.pending }),
      )
  unfolding handle_login
  handle_login-handle_callback args return_to verifier id token user start now later discovery s s1
        r e b c t d x v =
      let made = stored args.config return_to args.state_from_query verifier start _ s s1 r e in
      rw (sym made) (
        handle_callback-completes oidc args verifier return_to id start now later s user token b c t
          (rw (d, x, v) refl))
