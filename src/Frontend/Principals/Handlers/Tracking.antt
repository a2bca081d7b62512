-- ===== src/Frontend/Principals/Handlers/Tracking.antt =====
-- The flag that disables the buttons follows what is in flight.
use monok8s.Prelude.{◌≡◌, Bool, arith}
use monok8s.Services.{Result}
use monok8s.Frontend.Principals.Handlers.{Stage, Signals, is_busy, on_mutated, on_refetched}

-- The flag `pending` is set just while a mutation or its refetch is in flight.
abbrev pub Tracks : Signals → Type 0
Tracks s = s.pending ≡ is_busy s.stage

pub on_mutated-Tracks :
    (b : Bool) (stage : Stage) (r : Result (Unit {0})) (s : Signals)
    → s.stage ≡ stage
    → Tracks s
    → Tracks (on_mutated b stage r s)
unfolding on_mutated
on_mutated-Tracks b stage r s e t = ground arith

pub on_refetched-Tracks :
    (stage : Stage) (r : Result (Unit {0})) (s : Signals)
    → s.stage ≡ stage
    → Tracks s
    → Tracks (on_refetched stage r s)
unfolding on_refetched
on_refetched-Tracks stage r s e t = ground arith
