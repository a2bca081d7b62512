-- ===== src/Frontend/Principals/Handlers.antt =====
-- frontend/src/routes/Principals.tsx: the pair of signals that a group of mutations shares, such as
-- groupActionPending and groupActionError, through a handler. A handler runs from `await` to `await`: up
-- to its mutation, from its answer to the refetch, and from that to the end.
pub mod Tracking
use monok8s.Prelude.{Bool, true, false, Option, none, some, Text, if◌then◌else◌}
use monok8s.Services.{Result, ok, throw}
use monok8s.Services.Exec.{detail_of}

pub data Stage : Type 0 where
  idle mutating refetching : Stage

pub record Signals : Type 0 where
  pub stage : Stage
  pub pending : Bool
  pub error : Option Text

abbrev pub at_rest : Signals
at_rest = record { stage = idle; pending = false; error = none }

-- `setError(null); setPending(true)`, and the mutation is sent.
abbrev pub begin : Signals
begin = record { stage = mutating; pending = true; error = none }

-- `finally`
abbrev pub finished : Option Text → Signals
finished error = record { stage = idle; pending = false; error = error }

abbrev pub refetch : Signals → Signals
refetch s = record s { stage = refetching }

-- The answer to the mutation; the flag says whether the handler refetches.
unfoldable pub on_mutated : Bool → Stage → Result (Unit {0}) → Signals → Signals
on_mutated refetches mutating (ok _) s = if refetches then refetch s else finished s.error
on_mutated refetches mutating (throw e) s = finished (some (detail_of e))
on_mutated refetches _ _ s = s

unfoldable pub on_refetched : Stage → Result (Unit {0}) → Signals → Signals
on_refetched refetching (ok _) s = finished s.error
on_refetched refetching (throw e) s = finished (some (detail_of e))
on_refetched _ _ s = s

abbrev pub is_busy : Stage → Bool
is_busy idle = false
is_busy mutating = true
is_busy refetching = true
