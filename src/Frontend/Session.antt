-- ===== src/Frontend/Session.antt =====
-- frontend/src/lib/auth.tsx: the provider of the signed-in user. The URL is without its fragment's and
-- query's parsing: what the browser gives; `encodeURIComponent` is an argument.
pub mod Shown
use monok8s.Prelude.{
  ℕ, Bool, true, false, not, ◌&&◌, Option, none, some, List, [], ◌∷◌, ◌++◌, Text, lit, ◌==◌, any,
  is_blank, leb, nat_eq, starts_with, if◌then◌else◌,
}
use monok8s.Services.{Result, ok, throw, Thrown}
use monok8s.Services.Exec.{detail_of}
use monok8s.Api.Login.{WireUser}
use monok8s.Db.Ask.{decimal}

pub data Role : Type 0 where
  admin contributor viewer : Role

-- AuthState, and the address that the browser is sent to. A WireUser is what `/api/auth/me` answers.
pub record AuthState : Type 0 where
  pub user : Option WireUser
  pub loading : Bool
  pub error : Option Text
  pub redirected : Option Text

abbrev pub mounted : AuthState
mounted = record { user = none; loading = true; error = none; redirected = none }

-- window.location; none where there is no window
pub record Location : Type 0 where
  pub pathname : Text
  pub search : Text
  pub hash : Text

-- What `fetch` gives: it rejects, or there is a status, and a body that may not be JSON.
pub data Fetched : Type 0 where
  rejected : Thrown → Fetched
  answered : ℕ → Result WireUser → Fetched

abbrev pub present : Text → Option Text
present t = if is_blank t then none else some t

unfoldable pub return_to_from_location : Option Location → Option Text
return_to_from_location none = none
return_to_from_location (some l) =
    if starts_with (lit "/auth/") l.pathname
    then none
    else present (l.pathname ++ (l.search ++ l.hash))

abbrev pub build_login_url : (Text → Text) → Option Text → Text
build_login_url encode none = lit "/api/auth/login"
build_login_url encode (some return_to) =
    if is_blank return_to
    then lit "/api/auth/login"
    else lit "/api/auth/login?returnTo=" ++ encode return_to

-- `res.ok`
abbrev pub is_ok : ℕ → Bool
is_ok status = leb 200 status && leb status 299

abbrev pub failed : Text → AuthState → AuthState
failed message s = record s { error = some message; loading = false }

abbrev pub received : Result WireUser → AuthState → AuthState
received (ok wire) s = record s { user = some wire; loading = false }
received (throw e) s = failed (detail_of e) s

-- onMount, from the answer of `fetch("/api/auth/me")` on. Without a window there is nowhere to go.
unfoldable pub on_mount : (Text → Text) → Option Location → Fetched → AuthState → AuthState
on_mount encode location (rejected e) s = failed (detail_of e) s
on_mount encode location (answered status body) s =
    if nat_eq status 401
    then record s { redirected = some (build_login_url encode (return_to_from_location location)) }
    else if not (is_ok status)
    then failed (lit "auth /me responded " ++ decimal status) s
    else received body s

abbrev pub is_listed : Text → WireUser → Bool
is_listed tenant_id u = any (λ t. t.0 == tenant_id) u.tenants

abbrev pub switched : Text → Option WireUser → Option WireUser
switched tenant_id none = none
switched tenant_id (some u) =
    if is_listed tenant_id u then some (record u { tenant_id = tenant_id }) else some u

unfoldable pub switch_tenant : Text → AuthState → AuthState
switch_tenant tenant_id s = record s { user = switched tenant_id s.user }

unfoldable pub switch_all : List Text → AuthState → AuthState
switch_all [] s = s
switch_all (t ∷ ts) s = switch_all ts (switch_tenant t s)

unfoldable pub default_route_for_role : Role → Text
default_route_for_role admin = lit "/dashboard"
default_route_for_role contributor = lit "/resources"
default_route_for_role viewer = lit "/dashboard"
