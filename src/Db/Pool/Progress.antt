-- ===== src/Db/Pool/Progress.antt =====
-- A load that waits for room is not kept waiting by its own loop.
use monok8s.Prelude.{
  ℕ, ◌-◌, ◌≤◌, ◌<◌, ◌≡◌, refl, sym, some, [], ◌∷◌, Text, length, leb, arith, Bool-cases, inl, inr,
  ==_refl, lt→leb-false,
}
use monok8s.Prelude.Maps.{Map, get, get-set, get-delete, length-delete-some}
use monok8s.Db.Pool.{Pool, evicting, Factory, resumed, evict, settle, park, make_room, step}
use monok8s.Db.Pool.Keys.{IsKeyed}

make_room-settle :
    (n : ℕ) (t : Text) (p : Pool) (c : Map Pool) (s : Factory)
    → c ≡ s.cache
    → length s.cache ≤ n - 1
    → make_room n t p c s ≡ settle t p s
make_room-settle n t p [] s e h = refl
make_room-settle n t p ((oldest, q) ∷ c) s e h =
    let some_entry : 1 ≤ length s.cache = rw (sym e) (omega arith) in
    rw (lt→leb-false n (length s.cache) (omega (arith, some_entry, h))) refl

-- The first entry is in the cache, so evicting it makes the cache shorter.
evict-shorter :
    (oldest : Text) (q : Pool) (c : Map Pool) (s : Factory)
    → ((oldest, q) ∷ c) ≡ s.cache
    → length (evict oldest s).cache < length s.cache
unfolding evict
evict-shorter oldest q c s e =
    let found : get oldest s.cache ≡ some q = rw (sym e, ==_refl oldest) refl in
    rw found (length-delete-some oldest q s.cache found)

resumed_settled :
    (n : ℕ) (t : Text) (p : Pool) (s : Factory)
    → get t (step n (resumed t) (settle t p s)).cache ≡ some p
unfolding step
resumed_settled n t p s = rw (get-delete t s.inflight) (get-set t p s.cache)

resumed_parked :
    (n : ℕ) (t : Text) (p : Pool) (s : Factory)
    → length s.cache ≤ n - 1
    → get t (step n (resumed t) (park t p s)).cache ≡ some p
unfolding step
resumed_parked n t p s h =
    rw (get-set t (evicting p) s.inflight, make_room-settle n t p s.cache (park t p s) refl h)
      (get-set t p s.cache)

resumed_twice :
    (n : ℕ) (t : Text) (p : Pool) (c : Map Pool) (s : Factory)
    → c ≡ s.cache
    → IsKeyed n s
    → get t (step n (resumed t) (make_room n t p c s)).cache ≡ some p
resumed_twice n t p [] s e i = resumed_settled n t p s
resumed_twice n t p ((oldest, q) ∷ c) s e i = elim (Bool-cases (leb n (length s.cache))) [
  | inl b ↦ rw b (
      resumed_parked n t p (evict oldest s)
        (omega (arith, evict-shorter oldest q c s e, i.bounded)))
  | inr b ↦ rw b (resumed_settled n t p s)
]

resumed-make_room :
    (n : ℕ) (t : Text) (p : Pool) (s : Factory)
    → get t s.inflight ≡ some (evicting p)
    → step n (resumed t) s ≡ make_room n t p s.cache s
unfolding step
resumed-make_room n t p s g = rw g refl

-- From any state that the factory can be in: when the load of a tenant waits for room with its new
-- pool, and no other event comes between, that pool is in the cache after two turns of its loop.
pub resumed-settles :
    (n : ℕ) (t : Text) (p : Pool) (s : Factory)
    → IsKeyed n s
    → get t s.inflight ≡ some (evicting p)
    → get t (step n (resumed t) (step n (resumed t) s)).cache ≡ some p
resumed-settles n t p s i g =
    rw (resumed-make_room n t p s g) (resumed_twice n t p s.cache s refl i)
