-- ===== src/Tests/Db.antt =====
-- A cache of one pool: two tenants are loaded at once, and one of the pools is evicted.
use monok8s.Prelude.{◌≡◌, refl, ◌==◌, some, lit, List, [], ◌∷◌}
use monok8s.Db.Pool.{Event, request, fetched, resumed, idle, run, Pool, step, evict}
use monok8s.Db.Pool.Progress.{resumed-settles}
use monok8s.Prelude.Maps.{get}
use monok8s.Db.Pool.Keys.{IsKeyed, run-IsKeyed}
use monok8s.Db.Pool.Ownership.{IsOwned, run-IsOwned}
use monok8s.Fixtures.{alice, bob}

-- The newest first.
abbrev events : List Event
events =
    idle bob
    ∷ request bob
    ∷ resumed bob
    ∷ fetched bob
    ∷ fetched alice
    ∷ request alice
    ∷ request bob
    ∷ request alice
    ∷ []

run-IsKeyed_example : IsKeyed 1 (run 1 events)
run-IsKeyed_example = run-IsKeyed 1 events

run-IsOwned_example : IsOwned (run 1 events)
run-IsOwned_example = run-IsOwned 1 events

-- Bob's pool waits for Alice's to end.
abbrev waiting : List Event
waiting = fetched bob ∷ fetched alice ∷ request bob ∷ request alice ∷ []

abbrev bob_pool : Pool
bob_pool = record { number = 1; config_of = bob }

resumed-settles_example :
    get bob (step 1 (resumed bob) (step 1 (resumed bob) (run 1 waiting))).cache ≡ some bob_pool
unfolding run step evict lit ◌==◌
resumed-settles_example =
    resumed-settles 1 bob bob_pool (run 1 waiting) (run-IsKeyed 1 waiting) refl
