-- ===== src/Api/Sessions/History/Refinement.antt =====
-- The store answers as the directory does.
use monok8s.Prelude.{
  ℕ, ◌+◌, ◌≤◌, ◌≡◌, refl, sym, ap, ◌∙◌, ◌⊎◌, inl, inr, Option, none, some, List, [], ◌∷◌, ◌++◌,
  Text, ◌==◌, ==_iff, is_blank, leb, leb→le, arith, Bool-cases, Option-cases, if◌then◌else◌,
}
use mathlib.Core.Path.{ap₂}
use monok8s.Prelude.Maps.{get, get-set, get-set_other, get-delete, get-delete_other}
use monok8s.Auth.Zitadel.{VerifiedUser}
use monok8s.Api.Sessions.{
  SessionRecord, Stores, session_ttl_ms, create_session, lookup_session, delete_session,
}
use monok8s.Api.Sessions.History.{
  Call, create, lookup, delete, Event, Directory, no_sessions, live, after_call, answers,
  in_directory, directory_answers, IsOrdered,
}

-- The same entry, or one that has expired and was collected.
abbrev pub Agree : ℕ → Option SessionRecord → Option SessionRecord → Type 0
Agree t c a = (c ≡ a) ⊎ ((c ≡ none) × (live t a ≡ none))

pub record Tracks (t : ℕ) (s : Stores) (f : Directory) : Type 0 where
  pub same : (x : Text) → Agree t (get x s.sessions) (f x)

live-later : (t now : ℕ) (a : Option SessionRecord) → t ≤ now → live t a ≡ none → live now a ≡ none
live-later t now none h e = refl
live-later t now (some rec) h e = ground (arith, leb→le rec.expires_at t)

Agree-later : (t now : ℕ) (c a : Option SessionRecord) → t ≤ now → Agree t c a → Agree now c a
Agree-later t now c a h (inl e) = inl e
Agree-later t now c a h (inr (e, l)) = inr (e, live-later t now a h l)

Agree-live : (t : ℕ) (c a : Option SessionRecord) → Agree t c a → live t c ≡ live t a
Agree-live t c a (inl e) = ap (live t) e
Agree-live t c a (inr (e, l)) = rw (e, l) refl

Tracks-later : (t now : ℕ) (s : Stores) (f : Directory) → t ≤ now → Tracks t s f → Tracks now s f
Tracks-later t now s f h i = record {
  same = λ x. Agree-later t now (get x s.sessions) (f x) h (i.same x);
}

Tracks-create :
    (id token : Text) (user : VerifiedUser) (now : ℕ) (s : Stores) (f : Directory)
    → Tracks now s f
    → Tracks now (create_session id user token now s) (in_directory (create id user token) now f).1
unfolding create_session
Tracks-create id token user now s f i =
    let rec : SessionRecord = record {
      user = user;
      access_token = token;
      expires_at = now + session_ttl_ms;
    } in
    record {
      same = λ x. elim (Bool-cases (id == x)) [
        | inl b ↦
            let e : id ≡ x = (==_iff id x).0 b in inl (rw (b, ← e) (get-set id rec s.sessions))
        | inr b ↦ rw (b, get-set_other id x rec s.sessions b) (i.same x)
      ];
    }

pub lookup-found :
    (id : Text) (now : ℕ) (s : Stores)
    → (lookup_session id now s).0 ≡ (if is_blank id then none else live now (get id s.sessions))
unfolding lookup_session
lookup-found id now s = ground arith

-- A lookup collects an expired session, and changes no other.
lookup-kept :
    (id x : Text) (now : ℕ) (s : Stores)
    → Agree now (get x (lookup_session id now s).1.sessions) (get x s.sessions)
unfolding lookup_session
lookup-kept id x now s = elim (Bool-cases (is_blank id)) [
  | inl b ↦ rw b (inl refl)
  | inr b ↦ elim (Option-cases (get id s.sessions)) [
    | inl e ↦ rw (b, e) (inl refl)
    | inr (rec, e) ↦ elim (Bool-cases (leb rec.expires_at now)) [
      | inr l ↦ rw (b, e, l) (inl refl)
      | inl l ↦
          rw (b, e, l)
            (elim (Bool-cases (id == x)) [
              | inr n ↦ inl (get-delete_other id x s.sessions n)
              | inl y ↦
                  let same : id ≡ x = (==_iff id x).0 y in
                  inr (rw (← same) (get-delete id s.sessions), rw (← same) (rw e (rw l refl)))
            ])
    ]
  ]
]

Agree-trans : (t : ℕ) (c d a : Option SessionRecord) → Agree t c d → Agree t d a → Agree t c a
Agree-trans t c d a (inl e) h = rw e h
Agree-trans t c d a (inr (e, l)) h = inr (e, sym (Agree-live t d a h) ∙ l)

Tracks-lookup :
    (id : Text) (now : ℕ) (s : Stores) (f : Directory)
    → Tracks now s f
    → Tracks now (lookup_session id now s).1 f
Tracks-lookup id now s f i = record {
  same = λ x. Agree-trans now _ _ (f x) (lookup-kept id x now s) (i.same x);
}

Tracks-delete :
    (id : Text) (now : ℕ) (s : Stores) (f : Directory)
    → Tracks now s f
    → Tracks now (delete_session id s).1 (in_directory (delete id) now f).1
unfolding delete_session
Tracks-delete id now s f i = elim (Bool-cases (is_blank id)) [
  | inl b ↦ rw b i
  | inr b ↦ rw b record {
    same = λ x. elim (Bool-cases (id == x)) [
      | inl y ↦ let e : id ≡ x = (==_iff id x).0 y in inl (rw (y, ← e) (get-delete id s.sessions))
      | inr n ↦ rw (n, get-delete_other id x s.sessions n) (i.same x)
    ];
  }
]

-- One call: the same answer, and the store still tracks the directory.
call-Tracks :
    (c : Call) (now : ℕ) (s : Stores) (f : Directory)
    → Tracks now s f
    → ((after_call c now s).0 ≡ (in_directory c now f).0)
      × Tracks now (after_call c now s).1 (in_directory c now f).1
call-Tracks (create id user token) now s f i = (refl, Tracks-create id token user now s f i)
call-Tracks (lookup id) now s f i = (
  ap (λ o. o ∷ [])
      (lookup-found id now s
        ∙ ap (λ o. if is_blank id then none else o)
            (Agree-live now (get id s.sessions) (f id) (i.same id))),
  Tracks-lookup id now s f i,
)
call-Tracks (delete id) now s f i = (refl, Tracks-delete id now s f i)

answers-Tracks :
    (es : List Event) (t : ℕ) (s : Stores) (f : Directory)
    → IsOrdered t es
    → Tracks t s f
    → answers es s ≡ directory_answers es f
unfolding answers directory_answers
answers-Tracks [] t s f o i = refl
answers-Tracks (e ∷ es) t s f o i =
    let (same, kept) = call-Tracks e.call e.now s f (Tracks-later t e.now s f o.0 i) in
    ap₂ ◌++◌ same (answers-Tracks es e.now _ _ o.1 kept)

-- Whatever calls are made, at times that do not run backwards, the store of sessions answers every
-- lookup as a directory does that keeps each session until it is deleted or replaced, and shows it
-- before it expires: that expired sessions are collected on lookup is not seen. The store is empty at
-- first.
pub answers-directory :
    (es : List Event) (t : ℕ) (s : Stores)
    → IsOrdered t es
    → s.sessions ≡ []
    → answers es s ≡ directory_answers es no_sessions
answers-directory es t s o e =
    answers-Tracks es t s no_sessions o (record { same = λ x. inl (rw e refl) })
