-- ===== src/Frontend/Timeline/Rows.antt =====
-- The timeline that the loop derives is the one that the history says.
use mathlib.Core.List.{map-append}
use monok8s.Prelude.{
  fun_ext, ◌≡◌, refl, sym, ◌∙◌, inl, inr, Bool, true, false, Bool-cases, ◌||◌, Option, none, some,
  List, [], ◌∷◌, ◌++◌, Text, ◌==◌, ==_iff, ==_refl, ==_ne, ==_swap, or-false, arith, map, or_else,
}
use monok8s.Frontend.Timeline.{
  StepPhase, WorkflowPhase, first_type, Event, workflow, step, new_row, updated, on_step, on_event,
  play, derive_timeline,
}
use monok8s.Frontend.Timeline.History.{
  seen, add_name, step_names, last_phase, last_time, last_error, row_of, last_workflow, named_type,
  summary, newest_first,
}

abbrev Distinct : List Text → Type 0
Distinct [] = Unit
Distinct (m ∷ ms) = (seen m ms ≡ false) × Distinct ms

module _ (t name : Text) (phase : StepPhase) (timestamp : Text) (error : Option Text) where
  abbrev here : Event
  here = step t name phase timestamp error

  -- The row of another step stays as it was.
  row_of-other :
      (h : List Event) (m : Text) → (m == name) ≡ false → row_of (here ∷ h) m ≡ row_of h m
  unfolding last_phase last_time last_error
  row_of-other h m e = rw e refl

  row_of-seen :
      (h : List Event) (m : Text)
      → (m == name) ≡ true
      → seen m (step_names h) ≡ true
      → row_of (here ∷ h) m ≡ updated phase timestamp error (row_of h m)
  unfolding last_phase last_time last_error
  row_of-seen h m e s = rw (e, s) (ground arith)

  rows-other :
      (h : List Event) (ms : List Text)
      → seen name ms ≡ false
      → map (row_of (here ∷ h)) ms ≡ map (row_of h) ms
  rows-other h [] n = refl
  rows-other h (m ∷ ms) n =
      let (a, b) = or-false (m == name) (seen name ms) n in
      rw (row_of-other h m a, rows-other h ms b) refl

  on_step-absent :
      (h : List Event) (ms : List Text)
      → seen name ms ≡ false
      → on_step name phase timestamp error (map (row_of h) ms)
        ≡ map (row_of (here ∷ h)) ms ++ (new_row name phase timestamp error ∷ [])
  unfolding on_step
  on_step-absent h [] n = refl
  on_step-absent h (m ∷ ms) n =
      let (a, b) = or-false (m == name) (seen name ms) n in
      rw (a, row_of-other h m a, on_step-absent h ms b) refl

  on_step-present :
      (h : List Event) (ms : List Text)
      → Distinct ms
      → seen name ms ≡ true
      → seen name (step_names h) ≡ true
      → on_step name phase timestamp error (map (row_of h) ms) ≡ map (row_of (here ∷ h)) ms
  unfolding on_step
  on_step-present h [] d p s = absurd (grind arith)
  on_step-present h (m ∷ ms) d p s = elim (Bool-cases (m == name)) [
    | inl e ↦
        (let same : m ≡ name = (==_iff m name).0 e in
          let sm : seen m (step_names h) ≡ true = rw same s in
          let rest : seen name ms ≡ false = rw (← same) d.0 in
          rw (e, row_of-seen h m e sm, rows-other h ms rest) refl)
    | inr e ↦
        (let q : seen name ms ≡ true = rw e at p in
          rw (e, row_of-other h m e, on_step-present h ms d.1 q s) refl)
  ]

seen-append :
    (n x : Text) (ms : List Text) → seen n (ms ++ (x ∷ [])) ≡ (seen n ms || (x == n || false))
seen-append n x [] = refl
seen-append n x (m ∷ ms) = rw (seen-append n x ms) (ground arith)

Distinct-append :
    (x : Text) (ms : List Text) → Distinct ms → seen x ms ≡ false → Distinct (ms ++ (x ∷ []))
Distinct-append x [] d n = (refl, tt)
Distinct-append x (m ∷ ms) d n =
    let (a, b) = or-false (m == x) (seen x ms) n in
    (rw (seen-append m x ms, d.0, ==_swap m x a) refl, Distinct-append x ms d.1 b)

step_names-Distinct : (h : List Event) → Distinct (step_names h)
unfolding step_names
step_names-Distinct [] = tt
step_names-Distinct (workflow _ _ _ ∷ h) = step_names-Distinct h
step_names-Distinct (step _ name _ _ _ ∷ h) = elim (Bool-cases (seen name (step_names h))) [
  | inl s ↦ rw s (step_names-Distinct h)
  | inr n ↦ rw n (Distinct-append name (step_names h) (step_names-Distinct h) n)
]

seen-add :
    (m n : Text) (ms : List Text)
    → seen m (add_name n ms) ≡ false
    → (seen m ms ≡ false) × ((m == n) ≡ false)
seen-add m n ms e = elim (Bool-cases (seen n ms)) [
  | inl s ↦
      (let f : seen m ms ≡ false = rw s at e in
        (f, ==_ne m n (λ p. (let g : seen n ms ≡ false = rw (← p) f in cc))))
  | inr s ↦
      (let f : seen m (ms ++ (n ∷ [])) ≡ false = rw s at e in
        let (a, b) = or-false (seen m ms) (n == m || false) (sym (seen-append m n ms) ∙ f) in
        (a, ==_swap n m (or-false (n == m) false b).0))
]

-- A step that no event has named has no times.
last_time-unseen :
    (m : Text) (start : Bool) (h : List Event)
    → seen m (step_names h) ≡ false
    → last_time m start h ≡ none
unfolding step_names last_time
last_time-unseen m start [] n = refl
last_time-unseen m start (workflow _ _ _ ∷ h) n = last_time-unseen m start h n
last_time-unseen m start (step _ name phase ts _ ∷ h) n =
    let (a, b) = seen-add m name (step_names h) n in rw (b, last_time-unseen m start h a) refl

row_of-new :
    (t name : Text) (phase : StepPhase) (timestamp : Text) (error : Option Text) (h : List Event)
    → seen name (step_names h) ≡ false
    → row_of (step t name phase timestamp error ∷ h) name ≡ new_row name phase timestamp error
unfolding last_phase last_time last_error
row_of-new t name phase timestamp error h n =
    rw (==_refl name, n, last_time-unseen name true h n, last_time-unseen name false h n)
      (ground arith)

row_of-workflow :
    (t : Text) (phase : WorkflowPhase) (error : Option Text) (h : List Event) (m : Text)
    → row_of h m ≡ row_of (workflow t phase error ∷ h) m
unfolding last_phase last_time last_error
row_of-workflow t phase error h m = refl

first_type-named : (o : Option Text) (t : Text) → first_type o t ≡ some (or_else o t)
first_type-named none t = refl
first_type-named (some s) t = refl

on_event-summary : (e : Event) (h : List Event) → on_event e (summary h) ≡ summary (e ∷ h)
unfolding on_event step_names last_workflow named_type
on_event-summary (workflow t phase error) h =
    rw (first_type-named (named_type h) t, fun_ext (row_of-workflow t phase error h)) refl
on_event-summary (step t name phase timestamp error) h =
    let names = step_names h in
    elim (Bool-cases (seen name names)) [
      | inl s ↦
          rw
            (
              s,
              on_step-present t name phase timestamp error h names (step_names-Distinct h) s s,
              first_type-named (named_type h) t,
            )
            refl
      | inr n ↦
          rw
            (
              n,
              on_step-absent t name phase timestamp error h names n,
              map-append (row_of (step t name phase timestamp error ∷ h)) names (name ∷ []),
              row_of-new t name phase timestamp error h n,
              first_type-named (named_type h) t,
            )
            refl
    ]

play-summary : (es h : List Event) → play es (summary h) ≡ summary (newest_first es h)
unfolding play
play-summary [] h = refl
play-summary (e ∷ es) h = rw (on_event-summary e h) (play-summary es (e ∷ h))

-- For any events: the timeline has one row for each step that they name, in the order of first
-- mention; each row shows the phase of its step's last event, the times of its last start and of
-- its last end, and its last error that is not empty, or else its first event's; the workflow's phase and error are those of the last event of
-- the workflow itself, and the type that of the first event.
pub derive_timeline-summary : (es : List Event) → derive_timeline es ≡ summary (newest_first es [])
unfolding derive_timeline step_names last_workflow named_type
derive_timeline-summary es = play-summary es []
