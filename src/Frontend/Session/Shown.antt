-- ===== src/Frontend/Session/Shown.antt =====
-- What the portal shows, on the answers of the server's route `/api/auth/me`.
use monok8s.Prelude.{
  ◌≡◌, refl, sym, ap, inl, inr, true, false, Bool-cases, Option, none, some, List, [], ◌∷◌, Text,
  ◌==◌, ==_iff,
}
use monok8s.Services.{Result, ok}
use monok8s.Auth.Zitadel.{VerifiedUser}
use monok8s.Api.Config.{AppConfig}
use monok8s.Api.Sessions.{Stores, SessionRecord, lookup_session}
use monok8s.Api.Sessions.Cookies.{read_session_cookie}
use monok8s.Api.Login.{Oidc, WireUser, shape_wire_user}
use monok8s.Api.AuthRoutes.Responses.{Body, user, Request, Response, Draws, present}
use monok8s.Api.AuthRoutes.{route_me, me_answer}
use monok8s.Frontend.Session.{
  AuthState, mounted, Location, Fetched, answered, return_to_from_location, build_login_url,
  on_mount, switched, switch_tenant, switch_all,
}

-- The user is signed in, or the browser goes to the login.
abbrev pub shown : (Text → Text) → Option Location → Option SessionRecord → AuthState
shown encode location none = record {
  user = none;
  loading = true;
  error = none;
  redirected = some (build_login_url encode (return_to_from_location location));
}
shown encode location (some session) = record {
  user = some (shape_wire_user session.user);
  loading = false;
  error = none;
  redirected = none;
}

module _ (oidc : Oidc) (with_params : Text → List (Text × Text) → Result Text)
    (derive_code_challenge : Text → Text) (app : AppConfig) (json : Body → Result WireUser)
    (parsed : (w : WireUser) → json (user w) ≡ ok w) where
  abbrev pub fetched : Response → Fetched
  fetched r = answered r.status (json r.body)

  me_answer-shown :
      (encode : Text → Text) (location : Option Location) (found : Option SessionRecord × Stores)
      → on_mount encode location
          (fetched (me_answer oidc with_params derive_code_challenge app found).0)
          mounted
        ≡ shown encode location found.0
  unfolding on_mount
  me_answer-shown encode location (none, s) = refl
  me_answer-shown encode location (some session, s) =
      rw (parsed (shape_wire_user session.user)) refl

  switched-alone :
      (t : Text) (u : VerifiedUser)
      → switched t (some (shape_wire_user u)) ≡ some (shape_wire_user u)
  switched-alone t u = elim (Bool-cases (u.tenant_id == t)) [
    | inl e ↦ rw e (
        let p : u.tenant_id ≡ t = (==_iff u.tenant_id t).0 e in
        ap (λ x. some (record (shape_wire_user u) { tenant_id = x })) (sym p))
    | inr e ↦ rw e refl
  ]

  switch_all-shown :
      (encode : Text → Text) (location : Option Location) (found : Option SessionRecord)
      (ts : List Text)
      → switch_all ts (shown encode location found) ≡ shown encode location found
  unfolding switch_all switch_tenant
  switch_all-shown encode location found [] = refl
  switch_all-shown encode location none (t ∷ ts) = switch_all-shown encode location none ts
  switch_all-shown encode location (some session) (t ∷ ts) =
      rw (switched-alone t session.user) (switch_all-shown encode location (some session) ts)

  -- The portal, answered by the server's route, shows the user of the session that the request's cookie
  -- names, when that is there and has not expired, and otherwise sends the browser to the login with the
  -- place to come back to; it shows no error. Whatever tenants are then chosen, nothing changes: the
  -- server lists the user's own tenant alone. The server's JSON is parsed to what was sent.
  pub switch_all-on_mount :
      (encode : Text → Text) (location : Option Location) (ts : List Text) (req : Request)
      (draws : Draws) (s : Stores)
      → let answer = (route_me oidc with_params derive_code_challenge app req draws s).0 in
        let found = lookup_session (present (read_session_cookie req.cookie)) draws.now s in
        switch_all ts (on_mount encode location (fetched answer) mounted)
        ≡ shown encode location found.0
  unfolding route_me
  switch_all-on_mount encode location ts req draws s =
      let found = lookup_session (present (read_session_cookie req.cookie)) draws.now s in
      rw (me_answer-shown encode location found) (switch_all-shown encode location found.0 ts)
