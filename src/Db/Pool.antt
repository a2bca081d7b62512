-- ===== src/Db/Pool.antt =====
-- packages/db/src/pool.ts: `makePoolFactory`, the cache of one connection pool for each tenant. The
-- event loop runs one piece of code between two `await`s, so the factory is a step function on its
-- maps; the pieces are the events. `fetchSecret` and pg's `Pool` are outside: a fetch ends in an
-- event, and a new pool is a number and the configuration it was made from, known by the tenant
-- that the fetch was for. A timer is known by being alive in its entry.
pub mod Keys
pub mod Places
pub mod Ownership
pub mod Progress
use monok8s.Prelude.{
  ℕ, suc, Bool, Option, none, some, List, [], ◌∷◌, Text, length, leb, if◌then◌else◌,
}
use monok8s.Prelude.Maps.{Map, get, set, delete}

-- A pg.Pool, and the tenant whose secret it was made with.
pub record Pool : Type 0 where
  pub number : ℕ
  pub config_of : Text

-- Where the load of an in-flight key stands: at `await load`, or at an `await evict` of the loop.
pub data Phase : Type 0 where
  fetching : Phase
  evicting : Pool → Phase

-- The maps, `cache` oldest first; the pools that `end()` was called on; and the next pool's number.
pub record Factory : Type 0 where
  pub cache : Map Pool
  pub inflight : Map Phase
  pub ended : List Pool
  pub next : ℕ

-- The pieces that the event loop runs.
pub data Event : Type 0 where
  -- A call of `poolForTenant`.
  request : Text → Event
  -- The fetch of an in-flight key ends, with a configuration or a failure.
  fetched failed : Text → Event
  -- The `pool.end()` that the loop of an in-flight key waits for has settled.
  resumed : Text → Event
  -- The idle timer of a key fires.
  idle : Text → Event

-- `evict`, up to its `await`; an unknown key changes nothing.
abbrev pub evict_entry : Text → Option Pool → Factory → Factory
evict_entry t none s = s
evict_entry t (some p) s = record {
  cache = delete t s.cache;
  inflight = s.inflight;
  ended = p ∷ s.ended;
  next = s.next;
}

unfoldable pub evict : Text → Factory → Factory
evict t s = evict_entry t (get t s.cache) s

-- The loop's exit: `cache.set` of the new pool, and the `finally`.
abbrev pub settle : Text → Pool → Factory → Factory
settle t p s = record {
  cache = set t p s.cache;
  inflight = delete t s.inflight;
  ended = s.ended;
  next = s.next;
}

abbrev pub park : Text → Pool → Factory → Factory
park t p s = record {
  cache = s.cache;
  inflight = set t (evicting p) s.inflight;
  ended = s.ended;
  next = s.next;
}

-- The loop up to its next `await`, with the pool that was loaded for `t`. An empty cache ends it.
abbrev pub make_room : ℕ → Text → Pool → Map Pool → Factory → Factory
make_room cache_size t p [] s = settle t p s
make_room cache_size t p ((oldest, _) ∷ _) s =
    if leb cache_size (length s.cache) then park t p (evict oldest s) else settle t p s

-- A hit is moved to the end, with a new timer.
abbrev pub touch : Text → Pool → Factory → Factory
touch t p s = record {
  cache = set t p (delete t s.cache);
  inflight = s.inflight;
  ended = s.ended;
  next = s.next;
}

abbrev pub begin_load : Text → Factory → Factory
begin_load t s = record {
  cache = s.cache;
  inflight = set t fetching s.inflight;
  ended = s.ended;
  next = s.next;
}

-- `poolForTenant`: a hit, a join of the load in flight, or a new load.
abbrev pub pool_for_tenant : Text → Option Pool → Option Phase → Factory → Factory
pool_for_tenant t (some p) _ s = touch t p s
pool_for_tenant t none (some _) s = s
pool_for_tenant t none none s = begin_load t s

-- The rest of `load`, then the loop.
abbrev pub new_pool : Text → Factory → Pool
new_pool t s = record { number = s.next; config_of = t }

abbrev pub count_pool : Factory → Factory
count_pool s = record { cache = s.cache; inflight = s.inflight; ended = s.ended; next = suc s.next }

-- A piece of the load of `t`, where that load waits for it; otherwise nothing happens.
abbrev pub on_fetched : ℕ → Text → Option Phase → Factory → Factory
on_fetched n t (some fetching) s = make_room n t (new_pool t s) s.cache (count_pool s)
on_fetched n t _ s = s

abbrev pub on_failed : Text → Option Phase → Factory → Factory
on_failed t (some fetching) s = record {
  cache = s.cache;
  inflight = delete t s.inflight;
  ended = s.ended;
  next = s.next;
}
on_failed t _ s = s

abbrev pub on_resumed : ℕ → Text → Option Phase → Factory → Factory
on_resumed n t (some (evicting p)) s = make_room n t p s.cache s
on_resumed n t _ s = s

-- One event, with the configured `cacheSize`.
unfoldable pub step : ℕ → Event → Factory → Factory
step n (request t) s = pool_for_tenant t (get t s.cache) (get t s.inflight) s
step n (fetched t) s = on_fetched n t (get t s.inflight) s
step n (failed t) s = on_failed t (get t s.inflight) s
step n (resumed t) s = on_resumed n t (get t s.inflight) s
step n (idle t) s = evict t s

abbrev pub empty_factory : Factory
empty_factory = record { cache = []; inflight = []; ended = []; next = 0 }

-- The events, the newest first.
unfoldable pub run : ℕ → List Event → Factory
run n [] = empty_factory
run n (ev ∷ evs) = step n ev (run n evs)
