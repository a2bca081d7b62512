-- ===== src/Api/Connections.antt =====
-- apps/api/src/nats.ts and temporal.ts: the one connection of the process, made at the first call. An event is
-- a piece that the event loop runs: a call, or the outcome of the connecting. The setters of the tests are
-- not modelled.
pub mod Once
use monok8s.Prelude.{ℕ, zero, suc, ◌+◌, Option, none, some, List, [], ◌∷◌, ◌++◌, Text, lit, or_else}
use monok8s.Services.{Result, ok, throw}

pub record ResolvedTemporalConfig : Type 0 where
  pub address : Text
  pub namespace : Text

-- The two variables of the environment
abbrev pub resolve_temporal_config : Option Text → Option Text → ResolvedTemporalConfig
resolve_temporal_config host namespace = record {
  address = or_else host (lit "temporal.temporal.svc.cluster.local:7233");
  namespace = or_else namespace (lit "default");
}

abbrev pub nats_servers : Option Text → Text
nats_servers url = or_else url (lit "nats://nats.nats.svc.cluster.local:4222")

-- The variable `pending`: null, or a promise.
pub data Pending {ℓ} (C : Type ℓ) : Type ℓ where
  no_promise unsettled : Pending C
  settled : Result C → Pending C

-- `connects` counts the connections tried; `waiting` the callers that wait for the promise; `answers`
-- holds what the others got, newest first.
pub record Singleton {ℓ} (C : Type ℓ) : Type ℓ where
  pub client : Option C
  pub pending : Pending C
  pub connects : ℕ
  pub waiting : ℕ
  pub answers : List (Result C)

pub data Event {ℓ} (C : Type ℓ) : Type ℓ where
  -- connectNats, and getTemporalClient, which has the outcome at once.
  call : Event C
  call_settling outcome : Result C → Event C

module _ {ℓ} {C : Type ℓ} where
  abbrev pub fresh : Singleton C
  fresh = record { client = none; pending = no_promise; connects = 0; waiting = 0; answers = [] }

  abbrev pub repeat : ℕ → Result C → List (Result C)
  repeat zero r = []
  repeat (suc n) r = r ∷ repeat n r

  abbrev pub connected : Result C → Option C
  connected (ok c) = some c
  connected (throw e) = none

  abbrev pub answer : Result C → Singleton C → Singleton C
  answer r s = record s { answers = r ∷ s.answers }

  abbrev pub wait : Singleton C → Singleton C
  wait s = record s { waiting = suc s.waiting }

  abbrev pub connect : Singleton C → Singleton C
  connect s = wait (record s { pending = unsettled; connects = suc s.connects })

  abbrev pub settle : Pending C → Result C → Singleton C → Singleton C
  settle unsettled r s = record {
    client = connected r;
    pending = settled r;
    connects = s.connects;
    waiting = 0;
    answers = repeat s.waiting r ++ s.answers;
  }
  settle _ r s = s

  abbrev pub on_call : Option C → Pending C → Singleton C → Singleton C
  on_call (some c) p s = answer (ok c) s
  on_call none no_promise s = connect s
  on_call none unsettled s = wait s
  on_call none (settled r) s = answer r s

  -- getTemporalClient, whose connecting has no `await`.
  abbrev pub on_call_settling : Option C → Pending C → Result C → Singleton C → Singleton C
  on_call_settling (some c) p r s = answer (ok c) s
  on_call_settling none no_promise r s = settle unsettled r (connect s)
  on_call_settling none unsettled r s = wait s
  on_call_settling none (settled a) r s = answer a s

  unfoldable pub on_event : Event C → Singleton C → Singleton C
  on_event call s = on_call s.client s.pending s
  on_event (call_settling r) s = on_call_settling s.client s.pending r s
  on_event (outcome r) s = settle s.pending r s

  unfoldable pub run : List (Event C) → Singleton C → Singleton C
  run [] s = s
  run (e ∷ es) s = run es (on_event e s)
