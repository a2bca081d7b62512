-- ===== src/Tests/Sessions.antt =====
-- apps/api: the store of sessions over time.
use monok8s.Prelude.{◌≡◌, refl, ◌==◌, ◌+◌, ◌≤◌, ◌<◌, List, [], ◌∷◌, lit, arith}
use monok8s.Api.Sessions.{SessionRecord, Stores, session_ttl_ms}
use monok8s.Api.Sessions.History.{
  Event, create, lookup, delete, answers, directory_answers, no_sessions, stores_after,
}
use monok8s.Api.Sessions.History.Refinement.{answers-directory}
use monok8s.Api.Sessions.History.Bounds.{lookup_session-bounds}
use monok8s.Fixtures.{alice_user}

abbrev empty : Stores
empty = record { sessions = []; pending = [] }

abbrev events : List Event
events =
    record { now = 5; call = create (lit "s1") alice_user (lit "jwt") }
    ∷ record { now = 6; call = lookup (lit "s1") }
    ∷ record { now = 28_800_005; call = lookup (lit "s1") }
    ∷ record { now = 28_800_006; call = create (lit "s1") alice_user (lit "jwt2") }
    ∷ record { now = 28_800_006; call = delete (lit "s1") }
    ∷ record { now = 28_800_007; call = lookup (lit "s1") }
    ∷ []

answers-directory_example : answers events empty ≡ directory_answers events no_sessions
answers-directory_example =
    answers-directory events 0 empty
      (omega arith, (omega arith, (omega arith, (omega arith, (omega arith, (omega arith, tt))))))
      refl

abbrev made : List Event
made = record { now = 5; call = create (lit "s1") alice_user (lit "jwt") } ∷ []

abbrev session : SessionRecord
session = record { user = alice_user; access_token = lit "jwt"; expires_at = 5 + session_ttl_ms }

lookup_session-bounds_example : (9 < 5 + session_ttl_ms) × (5 + session_ttl_ms ≤ 9 + session_ttl_ms)
unfolding lit ◌==◌ monok8s.Api.Sessions.lookup_session monok8s.Api.Sessions.create_session
    stores_after
lookup_session-bounds_example =
    lookup_session-bounds made 0 9 empty (lit "s1") session (omega arith, omega arith) refl refl
