-- ===== src/Api/Login/Replay.antt =====
-- A login is completed by the browser that began it, with the verifier made for it, and once.
use monok8s.Prelude.{
  ℕ, ◌+◌, ◌<◌, ◌≡◌, refl, ap, sym, ◌∙◌, lt→leb-false, true, false, not, ◌||◌, Option, none, some,
  Text, lit, ◌==◌, ==_refl, is_blank, or_else, if◌then◌else◌, Bool-cases, inl, inr, leb,
}
use monok8s.Prelude.Maps.{get, delete, get-set, get-delete}
use monok8s.Services.{Thrown, Result, ok, throw}
use monok8s.Auth.Zitadel.{VerifiedUser}
use monok8s.Api.Sessions.{
  PendingAuth, Stores, pending_ttl_ms, create_session, create_pending_auth, consume_pending_auth,
}
use monok8s.Api.Login.{
  Oidc, CallbackArgs, csrf_failed, pending_not_found, exchanged, finish, with_pending,
  handle_callback,
}

-- Whatever the outcome of a callback whose cookie matched, no pending login is left under its state.
finish-pending :
    (oidc : Oidc) (args : CallbackArgs) (id : Text) (later : ℕ) (p : PendingAuth)
    (r : Result (VerifiedUser × Text)) (s : Stores)
    → (finish oidc args id later p r s).1.pending ≡ s.pending
unfolding create_session
finish-pending oidc args id later p (ok (user, token)) s = refl
finish-pending oidc args id later p (throw e) s = refl

gone :
    (oidc : Oidc) (args : CallbackArgs) (id : Text) (now later : ℕ) (o : Option PendingAuth)
    (s : Stores)
    → is_blank args.state_from_query ≡ false
    → get args.state_from_query s.pending ≡ o
    → get args.state_from_query
        (with_pending oidc args id later
          (consume_pending_auth args.state_from_query now s)).1.pending
      ≡ none
unfolding consume_pending_auth
gone oidc args id now later none s b g = rw (b, g) g
gone oidc args id now later (some rec) s b g = elim (Bool-cases (leb rec.expires_at now)) [
  | inl e ↦ rw (b, g, e) (get-delete args.state_from_query s.pending)
  | inr e ↦
      rw
        (
          b,
          g,
          e,
          finish-pending oidc args id later rec (exchanged oidc args rec)
              (record { sessions = s.sessions; pending = delete args.state_from_query s.pending }),
        )
        (get-delete args.state_from_query s.pending)
]

consumed :
    (oidc : Oidc) (args : CallbackArgs) (id : Text) (now later : ℕ) (s : Stores)
    → is_blank args.state_from_cookie ≡ false
    → args.state_from_cookie ≡ args.state_from_query
    → get args.state_from_query (handle_callback oidc args id now later s).1.pending ≡ none
unfolding handle_callback
consumed oidc args id now later s b c =
    rw (c, ==_refl args.state_from_query, ap is_blank (sym c) ∙ b)
      (gone oidc args id now later _ s (ap is_blank (sym c) ∙ b) refl)

refused :
    (oidc : Oidc) (args : CallbackArgs) (id : Text) (now later : ℕ) (s : Stores)
    → get args.state_from_query s.pending ≡ none
    → (e : Thrown) × (handle_callback oidc args id now later s ≡ (throw e, s))
unfolding handle_callback consume_pending_auth
refused oidc args id now later s g =
    elim (Bool-cases
      (is_blank args.state_from_cookie || not (args.state_from_cookie == args.state_from_query))) [
        | inl b ↦ (csrf_failed, rw b refl)
        | inr b ↦ (
          pending_not_found,
          rw (b, g)
              (elim (is_blank args.state_from_query)
                as (λ x.
                  with_pending oidc args id later (if x then (none, s) else (none, s))
                  ≡ (throw pending_not_found, s)) [ true ↦ refl | false ↦ refl ]),
        )
      ]

-- A callback replayed fails: after one whose cookie carried the state of its query, whether it
-- succeeded or not, any callback with that state fails, and changes nothing.
pub handle_callback-once :
    (oidc : Oidc) (args : CallbackArgs) (id : Text) (now later : ℕ) (oidc' : Oidc)
    (args' : CallbackArgs) (id' : Text) (now' later' : ℕ) (s : Stores)
    → is_blank args.state_from_cookie ≡ false
    → args.state_from_cookie ≡ args.state_from_query
    → args'.state_from_query ≡ args.state_from_query
    → let s1 = (handle_callback oidc args id now later s).1 in
      (e : Thrown) × (handle_callback oidc' args' id' now' later' s1 ≡ (throw e, s1))
handle_callback-once oidc args id now later oidc' args' id' now' later' s b c q =
    refused oidc' args' id' now' later' _ (rw q (consumed oidc args id now later s b c))

-- A login that is completed in time: the callback with the state that `create_pending_auth` stored,
-- in cookie and query, exchanges the code with the verifier stored beside it, and makes a session
-- for the user of the token that it gets.
pub handle_callback-completes :
    (oidc : Oidc) (args : CallbackArgs) (verifier : Text) (return_to : Option Text) (id : Text)
    (start now later : ℕ) (s : Stores) (user : VerifiedUser) (token : Text)
    → is_blank args.state_from_query ≡ false
    → args.state_from_cookie ≡ args.state_from_query
    → now < start + pending_ttl_ms
    → exchanged oidc args (record {
      code_verifier = verifier;
      expires_at = start + pending_ttl_ms;
      return_to = return_to;
    })
      ≡ ok (user, token)
    → handle_callback oidc args id now later
        (create_pending_auth args.state_from_query verifier return_to start s)
      ≡ (
        ok (record { session_id = id; return_to = or_else return_to (lit "/") }),
        create_session id user token later (record {
          sessions = s.sessions;
          pending =
              delete args.state_from_query
                (create_pending_auth args.state_from_query verifier return_to start s).pending;
        }),
      )
unfolding handle_callback consume_pending_auth create_pending_auth
handle_callback-completes oidc args verifier return_to id start now later s user token b c t x =
    rw
      (
        c,
        ==_refl args.state_from_query,
        b,
        get-set args.state_from_query
            (record {
              code_verifier = verifier;
              expires_at = start + pending_ttl_ms;
              return_to = return_to;
            })
            s.pending,
        lt→leb-false (start + pending_ttl_ms) now t,
        x,
      )
      refl
