-- ===== src/Api/Sessions/History/Bounds.antt =====
-- How long before its end a session that is found can be.
use monok8s.Prelude.{
  ℕ, ◌+◌, ◌≤◌, ◌<◌, ◌≡◌, sym, ap, ◌∙◌, All, Bool, if◌then◌else◌, true, false, Option, none, some,
  List, [], ◌∷◌, Text, is_blank, leb, leb-false→lt, arith, Bool-cases, Option-cases, inl, inr,
}
use monok8s.Prelude.Maps.{Map, get, All-set, All-delete, All-get}
use monok8s.Api.Sessions.{
  SessionRecord, Stores, session_ttl_ms, create_session, lookup_session, delete_session,
}
use monok8s.Api.Sessions.History.{
  live, Call, create, lookup, delete, Event, after_call, stores_after, RunsTo,
}
use monok8s.Api.Sessions.History.Refinement.{lookup-found}

-- A session that was made by now ends within its lifetime.
abbrev EndsBy : ℕ → Text × SessionRecord → Type 0
EndsBy t (id, rec) = rec.expires_at ≤ t + session_ttl_ms

All-later : (t now : ℕ) (m : Map SessionRecord) → t ≤ now → All (EndsBy t) m → All (EndsBy now) m
All-later t now [] h a = tt
All-later t now ((id, rec) ∷ m) h a = (omega (arith, a.0), All-later t now m h a.1)

lookup-EndsBy :
    (id : Text) (now : ℕ) (s : Stores)
    → All (EndsBy now) s.sessions
    → All (EndsBy now) (lookup_session id now s).1.sessions
unfolding lookup_session
lookup-EndsBy id now s a = elim (Bool-cases (is_blank id)) [
  | inl b ↦ rw b a
  | inr b ↦ elim (Option-cases (get id s.sessions)) [
    | inl e ↦ rw (b, e) a
    | inr (rec, e) ↦ elim (Bool-cases (leb rec.expires_at now)) [
      | inr l ↦ rw (b, e, l) a
      | inl l ↦ rw (b, e, l) (All-delete (EndsBy now) id s.sessions a)
    ]
  ]
]

call-EndsBy :
    (c : Call) (now : ℕ) (s : Stores)
    → All (EndsBy now) s.sessions
    → All (EndsBy now) (after_call c now s).1.sessions
unfolding create_session delete_session
call-EndsBy (create id user token) now s a = All-set (EndsBy now) id _ s.sessions a (omega arith)
call-EndsBy (lookup id) now s a = lookup-EndsBy id now s a
call-EndsBy (delete id) now s a = elim (Bool-cases (is_blank id)) [
  | inl b ↦ rw b a
  | inr b ↦ rw b (All-delete (EndsBy now) id s.sessions a)
]

after-EndsBy :
    (es : List Event) (t t' : ℕ) (s : Stores)
    → RunsTo t es t'
    → All (EndsBy t) s.sessions
    → All (EndsBy t') (stores_after es s).sessions
unfolding stores_after
after-EndsBy [] t t' s r a = All-later t t' s.sessions r a
after-EndsBy (e ∷ es) t t' s r a =
    after-EndsBy es e.now t' _ r.1 (call-EndsBy e.call e.now s (All-later t e.now s.sessions r.0 a))

live-some :
    (now : ℕ) (o : Option SessionRecord) (rec : SessionRecord)
    → live now o ≡ some rec
    → (o ≡ some rec) × (now < rec.expires_at)
live-some now none rec e = absurd (grind arith)
live-some now (some r) rec e = elim (Bool-cases (leb r.expires_at now)) [
  | inl b ↦ absurd (grind arith)
  | inr b ↦
      let same : r ≡ rec = grind arith in
      (ap some same, rw (← same) (leb-false→lt r.expires_at now b))
]

not_blank :
    (b : Bool) (o : Option SessionRecord) (rec : SessionRecord)
    → (if b then none else o) ≡ some rec
    → o ≡ some rec
not_blank true o rec e = absurd (grind arith)
not_blank false o rec e = e

-- A session that a lookup finds has not ended, and ends within eight hours of the lookup: no sequence of
-- calls, at times that do not run backwards, from an empty store, makes a session that is valid for
-- longer.
pub lookup_session-bounds :
    (es : List Event) (t now : ℕ) (s : Stores) (id : Text) (rec : SessionRecord)
    → RunsTo t es now
    → s.sessions ≡ []
    → (lookup_session id now (stores_after es s)).0 ≡ some rec
    → (now < rec.expires_at) × (rec.expires_at ≤ now + session_ttl_ms)
lookup_session-bounds es t now s id rec r empty e =
    let after = stores_after es s in
    let (found, ends) =
      live-some now _ rec (not_blank _ _ rec (sym (lookup-found id now after) ∙ e)) in
    let start : All (EndsBy t) s.sessions = rw empty tt in
    let bound : EndsBy now (id, rec) =
      All-get (EndsBy now) id rec after.sessions (after-EndsBy es t now s r start) found in
    (ends, bound)
