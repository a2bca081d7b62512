-- ===== src/Api/Principals/Suspension/Owners.antt =====
-- What the guards decide, when SpiceDB answers by schema.zed.
use monok8s.Prelude.{
  ◌≡◌, refl, Bool, true, false, not, ◌&&◌, Option, none, some, List, [], ◌∷◌, Text, ◌==◌, filter,
  any, all, arith, Bool-cases, inl, inr, ◌∙◌, ap, sym, if◌then◌else◌,
}
use monok8s.Services.{Env, Trace, Result, ok, Thrown}
use monok8s.Services.Exec.{Exec, continue, raise}
use monok8s.Services.Traces.{starts}
use monok8s.Auth.Schema.{permits}
use monok8s.Api.Principals.Suspension.Answers.{View, Answers, transfers}
use monok8s.Api.Principals.Suspension.{
  cannot_govern, suspend_user, dispatch_suspend, reinstate_user, dispatch_reinstate,
}
use monok8s.Api.Principals.Suspension.Guards.{
  others, is_protected, verdict, outcome, owner_verdict, govern, not_last,
}

any-not-all :
    (f g : Text → Bool) (ids : List Text)
    → any (λ id. g id && not (f id)) ids ≡ not (all f (filter g ids))
any-not-all f g [] = refl
any-not-all f g (id ∷ ids) = ground (arith, any-not-all f g ids)

transfers_suspended : (v : View) (u : Text) → (v.facts u).suspended ≡ true → transfers v u ≡ false
unfolding permits
transfers_suspended v u h = ground arith

module _ (env : Env) (t : Text) (v : View) (a : Answers env t v) where
  -- Run on, or stop with the guards' error.
  abbrev pub after_guards : Option Thrown → Exec Text → Exec Text
  after_guards none m = m
  after_guards (some e) m = raise e

  -- Suspending a user starts no workflow while it checks, and then does exactly this: it throws
  -- FORBIDDEN if the target can transfer the tenant and the actor neither can nor administrates the
  -- platform; it throws FORBIDDEN if no owner but the target is left, or all the others are
  -- suspended; otherwise it goes on to start the workflow. SpiceDB is taken to answer by schema.zed.
  pub suspend_user-verdict :
      (actor target : Text) (h : Trace)
      → (h' : Trace) × (starts h' ≡ starts h)
        × (suspend_user env t actor target h
            ≡ after_guards (verdict v actor target) (dispatch_suspend env t actor target) h')
  unfolding suspend_user
  suspend_user-verdict actor target h =
      let (h1, same1, governed) = govern env t v a actor target h in
      let (h2, same2, kept) = not_last env t v a target h1 in
      elim (Bool-cases (is_protected v actor target)) [
        | inl stop ↦ (h1, same1, rw (governed, stop))
        | inr go ↦
            (h2, same2 ∙ same1, rw (governed, go, kept) (by_verdict (owner_verdict v target) h2))
      ]
    where
      by_verdict :
          (o : Option Thrown) (h2 : Trace)
          → continue (outcome o, h2) (λ _. dispatch_suspend env t actor target)
            ≡ after_guards o (dispatch_suspend env t actor target) h2
      by_verdict none h2 = refl
      by_verdict (some e) h2 = refl

  -- A suspension that succeeds leaves an owner other than the target who is not suspended. SpiceDB
  -- is taken to answer by schema.zed, and not to change while the handler runs.
  pub suspend_user-keeps_owner :
      (actor target w : Text) (h : Trace)
      → (suspend_user env t actor target h).0 ≡ ok w
      → any (λ id. not (id == target) && not (v.facts id).suspended) v.owners ≡ true
  suspend_user-keeps_owner actor target w h done =
      let (h', same, decided) = suspend_user-verdict actor target h in
      rw (any-not-all (λ id. (v.facts id).suspended) (λ id. not (id == target)) v.owners) (
        by_verdict (verdict v actor target) refl
          (ap (λ (r : Result Text × Trace). r.0) (sym decided) ∙ done))
    where
      by_verdict :
          (o : Option Thrown)
          → verdict v actor target ≡ o
          → (after_guards o
              (dispatch_suspend env t actor target)
              (suspend_user-verdict actor target h).0).0
            ≡ ok w
          → not (all (λ id. (v.facts id).suspended) (others v target)) ≡ true
      by_verdict none e k = ground arith
      by_verdict (some x) e k = cc

  -- Reinstating a user starts no workflow while it checks, and then throws FORBIDDEN exactly if the
  -- target can transfer the tenant and the actor neither can nor administrates the platform; otherwise
  -- it goes on to start the workflow. SpiceDB is taken to answer by schema.zed.
  pub reinstate_user-verdict :
      (actor target : Text) (h : Trace)
      → (h' : Trace) × (starts h' ≡ starts h)
        × (reinstate_user env t actor target h
            ≡ (if is_protected v actor target
                  then raise cannot_govern
                  else dispatch_reinstate env t actor target)
                h')
  unfolding reinstate_user
  reinstate_user-verdict actor target h =
      let (h', same, governed) = govern env t v a actor target h in
      elim (Bool-cases (is_protected v actor target)) [
        | inl stop ↦ (h', same, rw (governed, stop))
        | inr go ↦ (h', same, rw (governed, go))
      ]

  -- The guard of owners does not see a suspended owner, since the permission that it asks for is
  -- taken from the suspended: whoever acts, the reinstatement of a suspended target is dispatched.
  -- SpiceDB is taken to answer by schema.zed.
  pub reinstate_user-unguarded :
      (actor target : Text) (h : Trace)
      → (v.facts target).suspended ≡ true
      → (h' : Trace) × (starts h' ≡ starts h)
        × (reinstate_user env t actor target h ≡ dispatch_reinstate env t actor target h')
  reinstate_user-unguarded actor target h suspended =
      let (h', same, decided) = reinstate_user-verdict actor target h in
      (h', same, rw (decided, transfers_suspended v target suspended) refl)
