-- ===== src/Api/Connections/Once.antt =====
-- The connection is tried once, and every caller gets its outcome.
use monok8s.Prelude.{
  ◌≡◌, ◌∙◌, refl, ap, ℕ, zero, suc, ◌+◌, Option, none, some, List, [], ◌∷◌, length, length-append,
  All, All-append, arith,
}
use monok8s.Services.{Result, ok, throw}
use monok8s.Api.Connections.{
  Pending, no_promise, unsettled, settled, Singleton, Event, call, call_settling, outcome, fresh,
  repeat, connected, connect, settle, on_call, on_call_settling, on_event, run,
}

module _ {ℓ} {C : Type ℓ} where
  -- The calls among the events
  abbrev pub calls : List (Event C) → ℕ
  calls [] = 0
  calls (call ∷ es) = 1 + calls es
  calls (call_settling r ∷ es) = 1 + calls es
  calls (outcome r ∷ es) = calls es

  abbrev pub Standing : Pending C → Option C → ℕ → ℕ → List (Result C) → Type ℓ
  Standing no_promise client connects waiting answers =
      (client ≡ none) × (connects ≡ 0) × (waiting ≡ 0) × (answers ≡ [])
  Standing unsettled client connects waiting answers =
      (client ≡ none) × (connects ≡ 1) × (answers ≡ [])
  Standing (settled r) client connects waiting answers =
      (client ≡ connected r) × (connects ≡ 1) × (waiting ≡ 0) × All (λ a. a ≡ r) answers

  abbrev pub Stands : Singleton C → Type ℓ
  Stands s = Standing s.pending s.client s.connects s.waiting s.answers

  repeat-same : (n : ℕ) (r : Result C) → All (λ a. a ≡ r) (repeat n r)
  repeat-same zero r = tt
  repeat-same (suc n) r = (refl, repeat-same n r)

  length-repeat : (n : ℕ) (r : Result C) → length (repeat n r) ≡ n
  length-repeat zero r = refl
  length-repeat (suc n) r = ap suc (length-repeat n r)

  -- The callers so far: those that got an answer, and those that wait.
  abbrev pub callers : Singleton C → ℕ
  callers s = length s.answers + s.waiting

  abbrev called : Event C → ℕ
  called call = 1
  called (call_settling r) = 1
  called (outcome r) = 0

  settle-callers :
      (p : Pending C) (r : Result C) (s : Singleton C) → callers (settle p r s) ≡ callers s
  settle-callers no_promise r s = refl
  settle-callers unsettled r s =
      rw (length-append (repeat s.waiting r) s.answers, length-repeat s.waiting r) (omega arith)
  settle-callers (settled a) r s = refl

  on_call-callers :
      (c : Option C) (p : Pending C) (s : Singleton C) → callers (on_call c p s) ≡ 1 + callers s
  on_call-callers (some c) p s = omega arith
  on_call-callers none no_promise s = omega arith
  on_call-callers none unsettled s = omega arith
  on_call-callers none (settled r) s = omega arith

  on_call_settling-callers :
      (c : Option C) (p : Pending C) (r : Result C) (s : Singleton C)
      → callers (on_call_settling c p r s) ≡ 1 + callers s
  on_call_settling-callers (some c) p r s = omega arith
  on_call_settling-callers none no_promise r s =
      settle-callers unsettled r (connect s) ∙ omega arith
  on_call_settling-callers none unsettled r s = omega arith
  on_call_settling-callers none (settled a) r s = omega arith

  on_event-callers : (e : Event C) (s : Singleton C) → callers (on_event e s) ≡ called e + callers s
  unfolding on_event
  on_event-callers call s = on_call-callers s.client s.pending s
  on_event-callers (call_settling r) s = on_call_settling-callers s.client s.pending r s
  on_event-callers (outcome r) s = settle-callers s.pending r s ∙ omega arith

  -- The four variables that `Stands` is about, apart from the state.
  settle-Stands :
      (r : Result C) (s : Singleton C)
      → (s.connects ≡ 1)
      → (s.answers ≡ [])
      → Stands (settle unsettled r s)
  settle-Stands r s k a = (
    refl,
    k,
    refl,
    rw a (All-append (λ x. x ≡ r) (repeat s.waiting r) [] (repeat-same s.waiting r) tt),
  )

  ok-connected : (c : C) (r : Result C) → some c ≡ connected r → ok c ≡ r
  ok-connected c (ok d) e = grind arith
  ok-connected c (throw x) e = absurd (grind arith)

  on_call-Stands :
      (c : Option C) (p : Pending C) (s : Singleton C)
      → s.client ≡ c
      → s.pending ≡ p
      → Standing p c s.connects s.waiting s.answers
      → Stands (on_call c p s)
  on_call-Stands (some c) no_promise s ec ep i = absurd (grind arith)
  on_call-Stands (some c) unsettled s ec ep i = absurd (grind arith)
  on_call-Stands (some c) (settled r) s ec ep (m, k, w, a) =
      rw (ep, ec) (m, k, w, (ok-connected c r m, a))
  on_call-Stands none no_promise s ec ep (m, k, w, a) = (ec, ap suc k, a)
  on_call-Stands none unsettled s ec ep (m, k, a) = rw (ep, ec) (refl, k, a)
  on_call-Stands none (settled r) s ec ep (m, k, w, a) = rw (ep, ec) (m, k, w, (refl, a))

  on_call_settling-Stands :
      (c : Option C) (p : Pending C) (r : Result C) (s : Singleton C)
      → s.client ≡ c
      → s.pending ≡ p
      → Standing p c s.connects s.waiting s.answers
      → Stands (on_call_settling c p r s)
  on_call_settling-Stands (some c) p r s ec ep i = on_call-Stands (some c) p s ec ep i
  on_call_settling-Stands none no_promise r s ec ep (m, k, w, a) =
      settle-Stands r (connect s) (ap suc k) a
  on_call_settling-Stands none unsettled r s ec ep i = on_call-Stands none unsettled s ec ep i
  on_call_settling-Stands none (settled a) r s ec ep i = on_call-Stands none (settled a) s ec ep i

  settle_any-Stands :
      (p : Pending C) (r : Result C) (s : Singleton C)
      → s.pending ≡ p
      → Standing p s.client s.connects s.waiting s.answers
      → Stands (settle p r s)
  settle_any-Stands no_promise r s ep i = rw ep i
  settle_any-Stands unsettled r s ep (m, k, a) = settle-Stands r s k a
  settle_any-Stands (settled x) r s ep i = rw ep i

  on_event-Stands : (e : Event C) (s : Singleton C) → Stands s → Stands (on_event e s)
  unfolding on_event
  on_event-Stands call s i = on_call-Stands s.client s.pending s refl refl i
  on_event-Stands (call_settling r) s i = on_call_settling-Stands s.client s.pending r s refl refl i
  on_event-Stands (outcome r) s i = settle_any-Stands s.pending r s refl i

  calls-cons : (e : Event C) (es : List (Event C)) → calls (e ∷ es) ≡ called e + calls es
  calls-cons call es = refl
  calls-cons (call_settling r) es = refl
  calls-cons (outcome r) es = omega arith

  run-keeps :
      (es : List (Event C)) (s : Singleton C)
      → Stands s
      → Stands (run es s) × (callers (run es s) ≡ calls es + callers s)
  unfolding run
  run-keeps [] s i = (i, omega arith)
  run-keeps (e ∷ es) s i =
      let (j, n) = run-keeps es (on_event e s) (on_event-Stands e s i) in
      (j, n ∙ rw (on_event-callers e s, calls-cons e es) (omega arith))

  -- Whatever the order of the calls and of the outcome of the connecting: before the first call nothing is
  -- tried, and after it just one connection has been; the callers wait until its outcome is there, and then
  -- each has it, a failure included, for ever: a failed connection is not tried again. No caller is
  -- lost: each call has an answer or waits.
  pub run-Stands :
      (es : List (Event C)) → Stands (run es fresh) × (callers (run es fresh) ≡ calls es)
  run-Stands es = let (i, n) = run-keeps es fresh (refl, refl, refl, refl) in (i, n ∙ omega arith)
