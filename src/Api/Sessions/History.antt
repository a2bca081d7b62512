-- ===== src/Api/Sessions/History.antt =====
-- The store of sessions, against a directory of sessions that nothing is ever collected from.
pub mod Refinement
pub mod Bounds
use monok8s.Prelude.{
  ℕ, ◌+◌, ◌≤◌, Option, none, some, List, [], ◌∷◌, ◌++◌, Text, ◌==◌, is_blank, leb, if◌then◌else◌,
}
use monok8s.Auth.Zitadel.{VerifiedUser}
use monok8s.Api.Sessions.{
  SessionRecord, Stores, session_ttl_ms, create_session, lookup_session, delete_session,
}

-- A call of one of the three functions, with the ID and token that it is given.
pub data Call : Type 0 where
  create : Text → VerifiedUser → Text → Call
  lookup delete : Text → Call

-- A call, and the time that it reads from the clock.
pub record Event : Type 0 where
  pub now : ℕ
  pub call : Call

-- The answers of the lookups among the calls, in order.
abbrev pub Answers : Type 0
Answers = List (Option SessionRecord)

abbrev pub found_first : Option SessionRecord × Stores → Answers × Stores
found_first (found, s) = (found ∷ [], s)

abbrev pub after_call : Call → ℕ → Stores → Answers × Stores
after_call (create id user token) now s = ([], create_session id user token now s)
after_call (lookup id) now s = found_first (lookup_session id now s)
after_call (delete id) now s = ([], (delete_session id s).1)

unfoldable pub answers : List Event → Stores → Answers
answers [] s = []
answers (e ∷ es) s = let (a, s1) = after_call e.call e.now s in a ++ answers es s1

-- The directory: who holds a session under an ID, expired or not.
abbrev pub Directory : Type 0
Directory = Text → Option SessionRecord

abbrev pub no_sessions : Directory
no_sessions id = none

abbrev pub update : Text → Option SessionRecord → Directory → Directory
update id w f x = if id == x then w else f x

-- A session before it expires.
abbrev pub live : ℕ → Option SessionRecord → Option SessionRecord
live now none = none
live now (some rec) = if leb rec.expires_at now then none else some rec

-- What the directory answers, and what becomes of it: a lookup changes nothing. The empty ID is none.
abbrev pub in_directory : Call → ℕ → Directory → Answers × Directory
in_directory (create id user token) now f = (
  [],
  update id (some (record { user = user; access_token = token; expires_at = now + session_ttl_ms }))
      f,
)
in_directory (lookup id) now f = ((if is_blank id then none else live now (f id)) ∷ [], f)
in_directory (delete id) now f = ([], if is_blank id then f else update id none f)

unfoldable pub directory_answers : List Event → Directory → Answers
directory_answers [] f = []
directory_answers (e ∷ es) f =
    let (a, f1) = in_directory e.call e.now f in a ++ directory_answers es f1

-- The clock does not run backwards.
abbrev pub IsOrdered : ℕ → List Event → Type 0
IsOrdered t [] = Unit
IsOrdered t (e ∷ es) = (t ≤ e.now) × IsOrdered e.now es

-- The store that is left, and a clock that runs from one time to another.
unfoldable pub stores_after : List Event → Stores → Stores
stores_after [] s = s
stores_after (e ∷ es) s = stores_after es (after_call e.call e.now s).1

abbrev pub RunsTo : ℕ → List Event → ℕ → Type 0
RunsTo t [] t' = t ≤ t'
RunsTo t (e ∷ es) t' = (t ≤ e.now) × RunsTo e.now es t'
