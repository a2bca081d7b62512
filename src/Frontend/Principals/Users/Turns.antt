-- ===== src/Frontend/Principals/Users/Turns.antt =====
-- The users tab has one mutation in flight at most, and does not wait for a refetch.
use monok8s.Prelude.{
  ◌≡◌, ◌∙◌, refl, ℕ, ◌+◌, ◌≤◌, Bool, true, false, Option, none, some, List, [], ◌∷◌, Text, length,
  arith, if◌then◌else◌, All,
}
use monok8s.Services.{Result, User}
use monok8s.Api.Router.{Mutation, suspend, reinstate, accepts}
use monok8s.Api.Router.Schemas.{accepts_mutation}
use monok8s.Frontend.Principals.Handlers.{Stage, idle, Signals, is_busy, on_mutated}
use monok8s.Frontend.Principals.Users.{
  Users, opened, Event, manage, close, click_suspend, click_reinstate, mutated, clicked, on_event,
  run,
}

-- The events that answer a mutation
abbrev pub answers : List Event → ℕ
answers [] = 0
answers (mutated r ∷ es) = 1 + answers es
answers (_ ∷ es) = answers es

-- 1 while a mutation is in flight
abbrev pub in_flight : Stage → ℕ
in_flight idle = 0
in_flight _ = 1

module _ (is_uuid : Text → Bool) where
  abbrev pub IsAccepted : Mutation → Type 0
  IsAccepted m = accepts_mutation is_uuid m ≡ true

  abbrev pub HasUuid : Option User → Type 0
  HasUuid none = Unit
  HasUuid (some u) = is_uuid u.id ≡ true

  -- The rows on which the user clicks have IDs that are UUIDs.
  abbrev pub IsOfRows : Event → Type 0
  IsOfRows (manage u) = is_uuid u.id ≡ true
  IsOfRows _ = Unit

  -- After `n` answers, which came or were not waited for.
  pub record Turns (n : ℕ) (actions : Signals) (selected : Option User) (sent : List Mutation)
      : Type 0 where
    pub tracked : actions.pending ≡ is_busy actions.stage
    pub counted : length sent ≤ n + in_flight actions.stage
    pub selected_row : HasUuid selected
    pub accepted : All IsAccepted sent

  abbrev pub HasTurns : ℕ → Users → Type 0
  HasTurns n s = Turns n s.actions s.selected s.sent

  when_idle :
      (a : Signals) → a.pending ≡ is_busy a.stage → a.pending ≡ false → in_flight a.stage ≡ 0
  when_idle a t p = ground arith

  clicked-HasTurns :
      (mutation : User → Mutation) (o : Option User) (n : ℕ) (s : Users)
      → s.actions.pending ≡ false
      → ((u : User) → is_uuid u.id ≡ true → IsAccepted (mutation u))
      → HasUuid o
      → HasTurns n s
      → HasTurns n (clicked mutation o s)
  clicked-HasTurns mutation none n s p m h i = i
  clicked-HasTurns mutation (some u) n s p m h i =
      let e = when_idle s.actions i.tracked p in
      let c = i.counted in
      record {
        tracked = refl;
        counted = omega arith;
        selected_row = i.selected_row;
        accepted = (m u h, i.accepted);
      }

  on_mutated-Turns :
      (n : ℕ) (r : Result (Unit {0})) (a : Signals) (stage : Stage) (o : Option User)
      (sent : List Mutation)
      → a.stage ≡ stage
      → Turns n a o sent
      → Turns (1 + n) (on_mutated false stage r a) o sent
  unfolding on_mutated
  on_mutated-Turns n r a stage o sent e i =
      let t = i.tracked in
      let c = i.counted in
      record {
        tracked = ground arith;
        counted = ground arith;
        selected_row = i.selected_row;
        accepted = i.accepted;
      }

  guarded :
      (b : Bool) (n : ℕ) (s t : Users)
      → HasTurns n s
      → (b ≡ false → HasTurns n t)
      → HasTurns n (if b then s else t)
  guarded true n s t i j = i
  guarded false n s t i j = j refl

  suspend-accepted : (u : Text) → is_uuid u ≡ true → accepts_mutation is_uuid (suspend u) ≡ true
  unfolding accepts_mutation accepts
  suspend-accepted u p = rw p refl

  reinstate-accepted : (u : Text) → is_uuid u ≡ true → accepts_mutation is_uuid (reinstate u) ≡ true
  unfolding accepts_mutation accepts
  reinstate-accepted u p = rw p refl

  abbrev answered : Event → ℕ → ℕ
  answered (mutated r) n = 1 + n
  answered _ n = n

  on_event-HasTurns :
      (e : Event) (n : ℕ) (s : Users)
      → IsOfRows e
      → HasTurns n s
      → HasTurns (answered e n) (on_event e s)
  unfolding on_event
  on_event-HasTurns (manage u) n s r i =
      guarded s.actions.pending n s (record s { selected = some u }) i
        (λ p. record {
          tracked = i.tracked;
          counted = i.counted;
          selected_row = r;
          accepted = i.accepted;
        })
  on_event-HasTurns close n s r i = record {
    tracked = i.tracked;
    counted = i.counted;
    selected_row = tt;
    accepted = i.accepted;
  }
  on_event-HasTurns click_suspend n s r i =
      guarded s.actions.pending n s (clicked (λ u. suspend u.id) s.selected s) i (λ p.
        clicked-HasTurns (λ u. suspend u.id) s.selected n s p (λ u. suspend-accepted u.id)
          i.selected_row i)
  on_event-HasTurns click_reinstate n s r i =
      guarded s.actions.pending n s (clicked (λ u. reinstate u.id) s.selected s) i (λ p.
        clicked-HasTurns (λ u. reinstate u.id) s.selected n s p (λ u. reinstate-accepted u.id)
          i.selected_row i)
  on_event-HasTurns (mutated a) n s r i =
      on_mutated-Turns n a s.actions s.actions.stage s.selected s.sent refl i

  answers-cons :
      (e : Event) (es : List Event) (n : ℕ) → n + answers (e ∷ es) ≡ answered e n + answers es
  answers-cons (manage u) es n = refl
  answers-cons close es n = refl
  answers-cons click_suspend es n = refl
  answers-cons click_reinstate es n = refl
  answers-cons (mutated r) es n = omega arith

  run-keeps :
      (es : List Event) (n m : ℕ) (s : Users)
      → m ≡ n + answers es
      → All IsOfRows es
      → HasTurns n s
      → HasTurns m (run es s)
  unfolding run
  run-keeps [] n m s e r i =
      let c = i.counted in
      record {
        tracked = i.tracked;
        counted = omega arith;
        selected_row = i.selected_row;
        accepted = i.accepted;
      }
  run-keeps (v ∷ es) n m s e r i =
      run-keeps es (answered v n) m (on_event v s) (e ∙ answers-cons v es n) r.1
        (on_event-HasTurns v n s r.0 i)

  -- Whatever the user clicks, however the server's answers fall among that: every request that the users
  -- tab has sent is one that the schemas of the server accept, no more was sent than there were answers,
  -- but for the one in flight, and the flag `pending` is set just while one is in flight. The rows' IDs
  -- are UUIDs.
  pub run-HasTurns : (es : List Event) → All IsOfRows es → HasTurns (answers es) (run es opened)
  run-HasTurns es r =
      run-keeps es 0 (answers es) opened (omega arith) r
        (record { tracked = refl; counted = ground arith; selected_row = tt; accepted = tt })
