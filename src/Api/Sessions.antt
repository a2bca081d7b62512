-- ===== src/Api/Sessions.antt =====
-- apps/api/src/handlers/sessions.ts: the two stores. The random session ID and the time are
-- arguments, as `opts.now` and the default arguments allow; `null` and the empty ID are one.
pub mod Cookies
pub mod Lifetimes
pub mod History
use monok8s.Prelude.{
  ℕ, ◌+◌, ◌*◌, Bool, true, false, Option, none, some, Text, leb, is_some, is_blank, if◌then◌else◌,
}
use monok8s.Prelude.Maps.{Map, get, set, delete}
use monok8s.Auth.Zitadel.{VerifiedUser}

-- `expires_at` is in milliseconds.
pub record SessionRecord : Type 0 where
  pub user : VerifiedUser
  pub access_token : Text
  pub expires_at : ℕ

pub record PendingAuth : Type 0 where
  pub code_verifier : Text
  pub expires_at : ℕ
  pub return_to : Option Text

pub record Stores : Type 0 where
  pub sessions : Map SessionRecord
  pub pending : Map PendingAuth

abbrev pub session_ttl_ms : ℕ
session_ttl_ms = 8 * 60 * 60 * 1000

abbrev pub pending_ttl_ms : ℕ
pending_ttl_ms = 5 * 60 * 1000

unfoldable pub create_session : Text → VerifiedUser → Text → ℕ → Stores → Stores
create_session id user access_token now s = record {
  sessions =
      set id
        (record { user = user; access_token = access_token; expires_at = now + session_ttl_ms })
        s.sessions;
  pending = s.pending;
}

abbrev pub drop_session : Text → Stores → Stores
drop_session id s = record { sessions = delete id s.sessions; pending = s.pending }

abbrev pub live_session : Text → ℕ → Option SessionRecord → Stores → Option SessionRecord × Stores
live_session id now none s = (none, s)
live_session id now (some rec) s =
    if leb rec.expires_at now then (none, drop_session id s) else (some rec, s)

unfoldable pub lookup_session : Text → ℕ → Stores → Option SessionRecord × Stores
lookup_session id now s =
    if is_blank id then (none, s) else live_session id now (get id s.sessions) s

unfoldable pub delete_session : Text → Stores → Bool × Stores
delete_session id s =
    if is_blank id then (false, s) else (is_some (get id s.sessions), drop_session id s)

unfoldable pub create_pending_auth : Text → Text → Option Text → ℕ → Stores → Stores
create_pending_auth state code_verifier return_to now s = record {
  sessions = s.sessions;
  pending =
      set state
        (record {
          code_verifier = code_verifier;
          expires_at = now + pending_ttl_ms;
          return_to = return_to;
        })
        s.pending;
}

abbrev pub take_pending : Text → ℕ → Option PendingAuth → Stores → Option PendingAuth × Stores
take_pending state now none s = (none, s)
take_pending state now (some rec) s = (
  (if leb rec.expires_at now then none else some rec),
  record { sessions = s.sessions; pending = delete state s.pending },
)

unfoldable pub consume_pending_auth : Text → ℕ → Stores → Option PendingAuth × Stores
consume_pending_auth state now s =
    if is_blank state then (none, s) else take_pending state now (get state s.pending) s
