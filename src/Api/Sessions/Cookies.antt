-- ===== src/Api/Sessions/Cookies.antt =====
-- apps/api/src/handlers/sessions.ts: reading and writing cookies. `split(";")`, `indexOf("=")` and
-- `trim()` are JavaScript's.
pub mod RoundTrip
pub mod Browser
use monok8s.Prelude.{
  ℕ, ◌/◌, Bool, true, false, not, ◌&&◌, ◌||◌, Option, none, some, List, [], ◌∷◌, ◌++◌, Text, lit,
  leb, nat_eq, ◌==◌, is_blank, or_else, trim, split, join, if◌then◌else◌,
}
use monok8s.Db.Ask.{decimal}
use monok8s.Api.Sessions.{session_ttl_ms, pending_ttl_ms}

-- The text before the first `sep`, and after it; none where there is no `sep`.
abbrev pub push_front : ℕ → Option (Text × Text) → Option (Text × Text)
push_front c none = none
push_front c (some (k, v)) = some (c ∷ k, v)

abbrev pub cut : ℕ → Text → Option (Text × Text)
cut sep [] = none
cut sep (c ∷ s) = let rest = cut sep s in if nat_eq c sep then some ([], s) else push_front c rest

abbrev pub non_empty : Text → Option Text
non_empty [] = none
non_empty (c ∷ s) = some (c ∷ s)

-- One turn of the loop, given what the rest of the loop returns.
abbrev pub try_part : Text → Option (Text × Text) → Option Text → Option Text
try_part name none rest = rest
try_part name (some (k, v)) rest = if trim k == name then non_empty (trim v) else rest

abbrev pub find_part : Text → List Text → Option Text
find_part name [] = none
find_part name (p ∷ ps) = try_part name (cut b'=' p) (find_part name ps)

-- An absent header is the empty one.
unfoldable pub parse_cookie_header : Text → Text → Option Text
parse_cookie_header header name =
    if is_blank header then none else find_part name (split b';' header)

-- CookieFlags; `max_age_seconds` is not negative.
pub record CookieFlags : Type 0 where
  pub secure : Bool
  pub domain : Text
  pub path : Option Text
  pub max_age_seconds : Option ℕ

abbrev pub flag : Bool → Text → List Text → List Text
flag b part parts = if b then part ∷ parts else parts

unfoldable pub format_cookie : Text → Text → CookieFlags → ℕ → Text
format_cookie name value flags default_max_age = join (lit "; ") (
    (name ++ (b'=' ∷ value))
    ∷ (lit "Path=" ++ or_else flags.path (lit "/"))
    ∷ lit "HttpOnly"
    ∷ lit "SameSite=Lax"
    ∷ flag flags.secure (lit "Secure") (
        flag (not (is_blank flags.domain)) (lit "Domain=" ++ flags.domain)
          ((lit "Max-Age=" ++ decimal (or_else flags.max_age_seconds default_max_age)) ∷ [])))

abbrev pub session_cookie_name : Text
session_cookie_name = lit "monok8s_session"

abbrev pub pending_cookie_name : Text
pending_cookie_name = lit "monok8s_pending"

unfoldable pub format_session_cookie : Text → CookieFlags → Text
format_session_cookie id flags = format_cookie session_cookie_name id flags (session_ttl_ms / 1000)

unfoldable pub format_pending_cookie : Text → CookieFlags → Text
format_pending_cookie state flags =
    format_cookie pending_cookie_name state flags (pending_ttl_ms / 1000)

abbrev pub expired : CookieFlags → CookieFlags
expired flags = record {
  secure = flags.secure;
  domain = flags.domain;
  path = flags.path;
  max_age_seconds = some 0;
}

unfoldable pub format_clear_session_cookie : CookieFlags → Text
format_clear_session_cookie flags = format_cookie session_cookie_name [] (expired flags) 0

unfoldable pub format_clear_pending_cookie : CookieFlags → Text
format_clear_pending_cookie flags = format_cookie pending_cookie_name [] (expired flags) 0

unfoldable pub read_session_cookie : Text → Option Text
read_session_cookie header = parse_cookie_header header session_cookie_name

unfoldable pub read_pending_cookie : Text → Option Text
read_pending_cookie header = parse_cookie_header header pending_cookie_name
