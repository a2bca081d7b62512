-- ===== src/Auth/Audit/Emission.antt =====
-- One envelope for one mutation, whatever the emitter does.
use monok8s.Prelude.{◌≡◌, refl, ℕ, Option, none, some, [], ◌∷◌, Text, lit}
use monok8s.Services.{Env, PoolId, Code, trpc_error, error, other, Result, ok, throw, Trace, clock}
use monok8s.Services.Exec.{Exec}
use monok8s.Auth.Zitadel.{VerifiedUser}
use monok8s.Auth.Audit.{
  mutation, Answer, data_of, failure, an_error, a_string, no_message, Outcome, success, failed,
  AuditTarget, AuditEnvelope, AuditEventSpec, outcome_of, data_in, rethrow, audit_around,
  audit_middleware,
}

-- How a mutation's body can end, the outcome that its envelope has to name, the data for the metadata,
-- and what the caller has to get.
pub data Ends {ℓ} {A : Type ℓ}
    : Result (Answer A) → Outcome → Option A → Result (Option (Answer A)) → Type ℓ where
  answers : {a : A} → Ends (ok (data_of a)) success (some a) (ok (some (data_of a)))
  fails_with_error :
      {m : Text}
      → Ends (ok (failure (an_error m))) (failed m) none (ok (some (failure (an_error m))))
  fails_with_text :
      {m : Text}
      → Ends (ok (failure (a_string m))) (failed m) none (ok (some (failure (a_string m))))
  fails_without_message :
      Ends
        (ok (failure no_message))
        (failed (lit "unknown error"))
        none
        (ok (some (failure no_message)))
  throws_trpc_error :
      {code : Code} {m : Text}
      → Ends (throw (trpc_error code m)) (failed m) none (throw (trpc_error code m))
  throws_error : {m : Text} → Ends (throw (error m)) (failed m) none (throw (error m))
  throws_text :
      {c : ℕ} {m : Text}
      → Ends (throw (other (c ∷ m))) (failed (c ∷ m)) none (throw (other (c ∷ m)))
  throws_falsy : Ends (throw (other [])) success none (ok none)

-- What the middleware makes of an end.
record Taken {ℓ} {A : Type ℓ} (r : Result (Answer A)) (outcome : Outcome) (given : Option A)
    (seen : Result (Option (Answer A))) : Type ℓ where
  out : outcome_of r ≡ outcome
  held : data_in r ≡ given
  left : (h : Trace) → rethrow r h ≡ (seen, h)

Taken-Ends {ℓ} :
    {A : Type ℓ} (r : Result (Answer A)) (outcome : Outcome) (given : Option A)
    (seen : Result (Option (Answer A)))
    → Ends r outcome given seen
    → Taken r outcome given seen
Taken-Ends r outcome given seen answers = record { out = refl; held = refl; left = λ h. refl }
Taken-Ends r outcome given seen fails_with_error = record {
  out = refl;
  held = refl;
  left = λ h. refl;
}
Taken-Ends r outcome given seen fails_with_text = record {
  out = refl;
  held = refl;
  left = λ h. refl;
}
Taken-Ends r outcome given seen fails_without_message = record {
  out = refl;
  held = refl;
  left = λ h. refl;
}
Taken-Ends r outcome given seen throws_trpc_error = record {
  out = refl;
  held = refl;
  left = λ h. refl;
}
Taken-Ends r outcome given seen throws_error = record { out = refl; held = refl; left = λ h. refl }
Taken-Ends r outcome given seen throws_text = record { out = refl; held = refl; left = λ h. refl }
Taken-Ends r outcome given seen throws_falsy = record { out = refl; held = refl; left = λ h. refl }

module _ {ℓ κ ι} {I : Type ι} {A : Type ℓ} {M : Type κ} (env : Env) (spec : AuditEventSpec I A M)
    (emitter : VerifiedUser → Option PoolId → AuditEnvelope M → Exec (Unit {0}))
    (user : VerifiedUser) (db : Option PoolId) (get_raw_input : Exec I)
    (next : Exec (Answer A)) where
  -- The run, after the body has ended in the trace `h2`: with the metadata, the envelope is emitted and the
  -- caller gets `seen`; without, there is no envelope and the caller gets the builder's error.
  abbrev pub Concludes :
      Trace
      → Trace
      → AuditTarget
      → Outcome
      → Result (Option (Answer A))
      → Result (Option M)
      → Result (Option (Answer A)) × Trace
      → Type ℓ
  Concludes h1 h2 target outcome seen (ok metadata) run = run ≡ (
    seen,
    (emitter user db
        (record {
          principal = user.user_id;
          action = spec.action;
          target = target;
          outcome = outcome;
          metadata = metadata;
          timestamp = env.to_iso (env.on_clock h1);
        })
        h2).1,
  )
  Concludes h1 h2 target outcome seen (throw e) run = run ≡ (throw e, h2)

  -- A mutation whose payload can be read and whose target can be built. When its metadata can be built: the
  -- emitter is called once, last, with one envelope that names the user, the target, the time before the
  -- body and the outcome. The outcome is a success where the body answers with data, and a failure with
  -- the error's message, or "unknown error" where it has none, where the body answers with a failure or
  -- throws. The caller gets the body's answer, or what it threw, whether the emitter fails or not. A falsy
  -- value thrown is the exception: the outcome is a success and the caller gets undefined. When its
  -- metadata cannot be built, no envelope is emitted, and the caller gets the builder's error in place of
  -- the body's answer, though the body has run.
  pub audit_middleware-emits :
      (h h1 h2 : Trace) (raw : I) (target : AuditTarget) (r : Result (Answer A)) (outcome : Outcome)
      (given : Option A) (seen : Result (Option (Answer A))) (built : Result (Option M))
      → get_raw_input h ≡ (ok raw, h1)
      → spec.target raw ≡ ok target
      → next (clock ∷ h1) ≡ (r, h2)
      → Ends r outcome given seen
      → spec.metadata raw given ≡ built
      → Concludes h1 h2 target outcome seen built
          (audit_middleware env spec emitter mutation (some user) db get_raw_input next h)
  unfolding audit_middleware audit_around
  audit_middleware-emits h h1 h2 raw target r outcome given seen (ok metadata) gi ta ne en me =
      let t = Taken-Ends r outcome given seen en in rw (gi, ta, ne, t.held, me, t.out) (t.left _)
  audit_middleware-emits h h1 h2 raw target r outcome given seen (throw e) gi ta ne en me =
      rw (gi, ta, ne, (Taken-Ends r outcome given seen en).held, me) refl
