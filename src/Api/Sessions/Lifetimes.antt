-- ===== src/Api/Sessions/Lifetimes.antt =====
-- How long a session lives, and that a pending login is used once.
use monok8s.Prelude.{
  ℕ, ◌+◌, ◌≤◌, ◌<◌, ◌≡◌, refl, false, Option, none, some, Text, leb, leb-false→lt, leb→le, is_blank,
  Option-cases, ◌⊎◌, inl, inr, Bool-cases,
}
use monok8s.Prelude.Maps.{get, get-set, get-delete}
use monok8s.Auth.Zitadel.{VerifiedUser}
use monok8s.Api.Sessions.{
  SessionRecord, Stores, session_ttl_ms, create_session, lookup_session, consume_pending_auth,
}

abbrev pub new_session : VerifiedUser → Text → ℕ → SessionRecord
new_session user access_token now = record {
  user = user;
  access_token = access_token;
  expires_at = now + session_ttl_ms;
}

-- Before `limit` the answer is `rec` and the stores stay; from then on it is null and `id` is gone.
abbrev pub LivesUntil :
    ℕ → ℕ → Text → SessionRecord → Stores → Option SessionRecord × Stores → Type 0
LivesUntil limit later id rec s (found, after) =
    ((later < limit) × ((found ≡ some rec) × (after ≡ s)))
    ⊎ ((limit ≤ later) × ((found ≡ none) × (get id after.sessions ≡ none)))

-- A new session is found for eight hours, as it was made; from then on it is not found, and the
-- lookup removes it. The ID is not empty.
pub lookup-create_session :
    (id : Text) (user : VerifiedUser) (access_token : Text) (now later : ℕ) (s : Stores)
    → is_blank id ≡ false
    → LivesUntil
        (now + session_ttl_ms)
        later
        id
        (new_session user access_token now)
        (create_session id user access_token now s)
        (lookup_session id later (create_session id user access_token now s))
unfolding create_session lookup_session
lookup-create_session id user access_token now later s h =
    rw (h, get-set id (new_session user access_token now) s.sessions)
      (elim (Bool-cases (leb (now + session_ttl_ms) later)) [
        | inl b ↦ rw b (inr (leb→le (now + session_ttl_ms) later b, (refl, get-delete id _)))
        | inr b ↦ rw b (inl (leb-false→lt (now + session_ttl_ms) later b, (refl, refl)))
      ])

-- A pending login is handed out at most once: after one attempt to consume it, at any time, no later
-- attempt finds it.
pub consume_pending_auth-once :
    (state : Text) (now later : ℕ) (s : Stores)
    → (consume_pending_auth state later (consume_pending_auth state now s).1).0 ≡ none
unfolding consume_pending_auth
consume_pending_auth-once state now later s = elim (Bool-cases (is_blank state)) [
  | inl b ↦ rw b refl
  | inr b ↦ rw b (elim (Option-cases (get state s.pending)) [
    | inl e ↦ rw (e, e) refl
    | inr (rec, e) ↦ rw (e, get-delete state s.pending) refl
  ])
]
