-- ===== src/Api/Server.antt =====
-- apps/api/src/index.ts and context.ts: which handler a request goes to, and the token that tRPC's procedures
-- get. tRPC's own reading of the path and the body is left to `procedure`, which is given the token.
pub mod Tokens
use monok8s.Prelude.{
  ℕ, zero, suc, Option, none, some, List, [], ◌∷◌, Text, lit, length, or_else, starts_with,
  if◌then◌else◌,
}
use monok8s.Services.{Result, ok, throw, Thrown, Trace}
use monok8s.Services.Exec.{Exec}
use monok8s.Api.Config.{AppConfig}
use monok8s.Api.Sessions.{Stores}
use monok8s.Api.System.{SystemResponse, handle_system_route}
use monok8s.Api.Login.{Oidc}
use monok8s.Api.AuthRoutes.{Url, Request, Response, Draws, handle_auth_route}

-- `s.replace(p, "")`: the first place where `p` stands.
abbrev pub drop : ℕ → Text → Text
drop zero s = s
drop (suc n) [] = []
drop (suc n) (c ∷ s) = drop n s

unfoldable pub without_first : Text → Text → Text
without_first p [] = []
without_first p (c ∷ s) =
    let rest = without_first p s in
    if starts_with p (c ∷ s) then drop (length p) (c ∷ s) else c ∷ rest

-- createContext: the header is the whole of what it reads.
abbrev pub bearer : Option Text → Option Text
bearer none = none
bearer (some header) = some (without_first (lit "Bearer ") header)

pub record AppContext : Type 0 where
  pub token : Option Text
  pub config : AppConfig

unfoldable pub create_context : AppConfig → Option Text → AppContext
create_context config authorization = record { token = bearer authorization; config = config }

-- Who answered: the system route, an auth route, which may throw, or tRPC.
pub data Handled {ℓ} (A : Type ℓ) : Type ℓ where
  by_system : SystemResponse → Handled A
  by_auth : Response → Handled A
  crashed : Thrown → Handled A
  by_trpc : Result A → Handled A

module _ {ℓ} {A : Type ℓ} (oidc : Oidc) (with_params : Text → List (Text × Text) → Result Text)
    (derive_code_challenge : Text → Text) (app : AppConfig) (parse_url : Text → Text → Option Url)
    (procedure : Text → Exec A) where
  abbrev pub next : Option Text → Stores → Trace → Handled A × Stores × Trace
  next authorization s h =
      let (r, h1) = procedure (or_else (create_context app authorization).token []) h in
      (by_trpc r, s, h1)

  abbrev pub after_auth :
      Option Text → Result (Option Response) × Stores → Trace → Handled A × Stores × Trace
  after_auth authorization (throw e, s) h = (crashed e, s, h)
  after_auth authorization (ok (some r), s) h = (by_auth r, s, h)
  after_auth authorization (ok none, s) h = next authorization s h

  abbrev pub after_system :
      Option SystemResponse
      → Option Text
      → Request
      → Draws
      → Stores
      → Trace
      → Handled A × Stores × Trace
  after_system (some r) authorization req draws s h = (by_system r, s, h)
  after_system none authorization req draws s h =
      after_auth authorization
        (handle_auth_route oidc with_params derive_code_challenge app parse_url req draws s) h

  -- The server's `middleware`, with the header `authorization` of the request.
  unfoldable pub serve : Option Text → Request → Draws → Stores → Trace → Handled A × Stores × Trace
  serve authorization req draws s h =
      after_system (handle_system_route app req.url) authorization req draws s h
