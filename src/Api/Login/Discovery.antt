-- ===== src/Api/Login/Discovery.antt =====
-- apps/api/src/effects/oidc.ts, and the discovery cache of handlers/auth.ts. `fetch`, with the JSON of
-- the response, and the encoding of a form are arguments.
use monok8s.Prelude.{
  ℕ, zero, suc, Bool, not, ◌&&◌, ◌||◌, ◌≡◌, refl, sym, arith, Option, none, some, List, [], ◌∷◌,
  ◌++◌, Text, lit, nat_eq, is_blank, or_else, if◌then◌else◌,
}
use monok8s.Prelude.Maps.{Map, get, set, get-set}
use monok8s.Services.{error, Result, ok, throw}
use monok8s.Services.Exec.{then_result}
use monok8s.Db.Ask.{decimal}
use monok8s.Api.Login.{OidcDiscovery, ExchangeArgs}

-- The JSON of a discovery document: any field may be absent.
pub record PartialDiscovery : Type 0 where
  pub authorization_endpoint : Option Text
  pub token_endpoint : Option Text
  pub jwks_uri : Option Text
  pub end_session_endpoint : Option Text

-- A response: its status, whether that is a success, its text and its JSON.
pub record Response {ℓ} (A : Type ℓ) : Type ℓ where
  pub status : ℕ
  pub is_ok : Bool
  pub body : Result Text
  pub json : Result A

-- `issuer.replace(/\/$/, "")`
abbrev pub without_slash : Text → Text
without_slash [] = []
without_slash (c ∷ s) =
    let rest = without_slash s in if is_blank s && nat_eq c b'/' then [] else c ∷ rest

abbrev pub discovery_url : Text → Text
discovery_url issuer = without_slash issuer ++ lit "/.well-known/openid-configuration"

abbrev pub present : Option Text → Text
present o = or_else o []

abbrev pub checked_discovery : Text → PartialDiscovery → Result OidcDiscovery
checked_discovery url body =
    if is_blank (present body.authorization_endpoint)
      || (is_blank (present body.token_endpoint) || is_blank (present body.jwks_uri))
    then throw (error (lit "OIDC discovery response missing required fields at " ++ url))
    else ok (record {
      authorization_endpoint = present body.authorization_endpoint;
      token_endpoint = present body.token_endpoint;
      end_session_endpoint = body.end_session_endpoint;
    })

abbrev pub discovered : Text → Response PartialDiscovery → Result OidcDiscovery
discovered url res =
    if not res.is_ok
    then throw (
        error
          (lit "OIDC discovery failed: GET " ++ (url ++ (lit " returned " ++ decimal res.status))))
    else then_result res.json (checked_discovery url)

unfoldable pub discover_oidc_config :
    (Text → Result (Response PartialDiscovery)) → Text → Result OidcDiscovery
discover_oidc_config fetcher issuer =
    let url = discovery_url issuer in then_result (fetcher url) (discovered url)

-- `getDiscovery`, on the cache.
abbrev pub cached :
    Text → Result OidcDiscovery → Map OidcDiscovery → Result OidcDiscovery × Map OidcDiscovery
cached issuer (ok doc) cache = (ok doc, set issuer doc cache)
cached issuer (throw e) cache = (throw e, cache)

abbrev pub or_fetch :
    (Text → Result (Response PartialDiscovery))
    → Text
    → Option OidcDiscovery
    → Map OidcDiscovery
    → Result OidcDiscovery × Map OidcDiscovery
or_fetch fetcher issuer (some hit) cache = (ok hit, cache)
or_fetch fetcher issuer none cache = cached issuer (discover_oidc_config fetcher issuer) cache

unfoldable pub get_discovery :
    (Text → Result (Response PartialDiscovery))
    → Text
    → Map OidcDiscovery
    → Result OidcDiscovery × Map OidcDiscovery
get_discovery fetcher issuer cache = or_fetch fetcher issuer (get issuer cache) cache

-- `detail.slice(0, 200)`
abbrev pub take : ℕ → Text → Text
take zero s = []
take (suc n) [] = []
take (suc n) (c ∷ s) = c ∷ take n s

abbrev pub text_or_empty : Result Text → Text
text_or_empty (ok t) = t
text_or_empty (throw e) = []

-- The access token of a response.
abbrev pub token_of : Response Text → Result Text
token_of res =
    if not res.is_ok
    then throw (
        error (
          lit "OIDC token exchange failed: "
          ++ (decimal res.status ++ (lit " " ++ take 200 (text_or_empty res.body)))))
    else res.json

-- A form posted to an endpoint. The client has no secret.
unfoldable pub exchange_code_for_token :
    (Text → List (Text × Text) → Result (Response Text)) → ExchangeArgs → Result Text
exchange_code_for_token post args =
    then_result
      (post args.token_endpoint (
        (lit "grant_type", lit "authorization_code")
        ∷ (lit "code", args.code)
        ∷ (lit "code_verifier", args.code_verifier)
        ∷ (lit "redirect_uri", args.redirect_uri)
        ∷ (lit "client_id", args.client_id)
        ∷ []))
      token_of

stored_or_failed :
    (issuer : Text) (r : Result OidcDiscovery) (cache cache1 : Map OidcDiscovery)
    (doc : OidcDiscovery)
    → cached issuer r cache ≡ (ok doc, cache1)
    → get issuer cache1 ≡ some doc
stored_or_failed issuer (throw x) cache cache1 doc e = absurd (grind arith)
stored_or_failed issuer (ok found) cache cache1 doc e =
    let same : found ≡ doc = grind arith in
    let kept : set issuer found cache ≡ cache1 = grind arith in
    rw (sym kept, same) (get-set issuer doc cache)

hit_or_stored :
    (fetcher : Text → Result (Response PartialDiscovery)) (issuer : Text) (o : Option OidcDiscovery)
    (cache cache1 : Map OidcDiscovery) (doc : OidcDiscovery)
    → get issuer cache ≡ o
    → or_fetch fetcher issuer o cache ≡ (ok doc, cache1)
    → get issuer cache1 ≡ some doc
hit_or_stored fetcher issuer none cache cache1 doc g e =
    stored_or_failed issuer (discover_oidc_config fetcher issuer) cache cache1 doc e
hit_or_stored fetcher issuer (some hit) cache cache1 doc g e =
    let same : hit ≡ doc = grind arith in
    let kept : cache ≡ cache1 = grind arith in rw (sym kept, g, same) refl

-- A document that was found is kept: any later request for the issuer, whatever the server would answer,
-- returns it, and leaves the cache as it is.
pub get_discovery-cached :
    (fetcher later : Text → Result (Response PartialDiscovery)) (issuer : Text)
    (cache cache1 : Map OidcDiscovery) (doc : OidcDiscovery)
    → get_discovery fetcher issuer cache ≡ (ok doc, cache1)
    → get_discovery later issuer cache1 ≡ (ok doc, cache1)
unfolding get_discovery
get_discovery-cached fetcher later issuer cache cache1 doc e =
    rw (hit_or_stored fetcher issuer (get issuer cache) cache cache1 doc refl e) refl
