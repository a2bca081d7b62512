-- ===== src/Db/Pool/Ownership.antt =====
-- Whose the pools are, and that each is in one place.
use monok8s.Prelude.{
  ℕ, ◌≡◌, refl, ◌∙◌, Option, none, some, List, [], ◌∷◌, Text, length, leb, ltb, arith,
  if◌then◌else◌, Bool-cases, Option-cases, inl, inr, All,
}
use monok8s.Prelude.Maps.{
  Map, get, delete, All-get, All-set, All-delete, weight-delete, weight-set_new, get-delete,
}
use monok8s.Db.Pool.{
  Pool, Phase, fetching, evicting, Factory, Event, request, fetched, failed, resumed, idle, evict,
  make_room, pool_for_tenant, new_pool, count_pool, on_fetched, on_failed, on_resumed, step, run,
}
use monok8s.Db.Pool.Keys.{IsKeyed, IsKeyed-count_pool, evict-inflight, run-IsKeyed}
use monok8s.Db.Pool.Places.{one, one_loading, places, places-evict, places-make_room}

-- A pool under a key was made from that tenant's secret.
abbrev pub Own : Text × Pool → Type 0
Own (t, p) = p.config_of ≡ t

abbrev pub OwnLoad : Text × Phase → Type 0
OwnLoad (t, fetching) = Unit
OwnLoad (t, evicting p) = p.config_of ≡ t

-- Every pool made so far is in one place, no other is in any, and none is under a wrong tenant.
pub record IsOwned (s : Factory) : Type 0 where
  pub each : (k : ℕ) → places k s ≡ (if ltb k s.next then 1 else 0)
  pub cached : All Own s.cache
  pub loading : All OwnLoad s.inflight

evict-next : (t : Text) (s : Factory) → (evict t s).next ≡ s.next
unfolding evict
evict-next t s = elim (Option-cases (get t s.cache)) [ inl e ↦ rw e refl | inr (p, e) ↦ rw e refl ]

evict-cached : (t : Text) (s : Factory) → All Own s.cache → All Own (evict t s).cache
unfolding evict
evict-cached t s o = elim (Option-cases (get t s.cache)) [
  | inl e ↦ rw e o
  | inr (p, e) ↦ rw e (All-delete Own t s.cache o)
]

IsOwned-evict : (n : ℕ) (t : Text) (s : Factory) → IsKeyed n s → IsOwned s → IsOwned (evict t s)
IsOwned-evict n t s i o = record {
  each = λ k. rw (evict-next t s) (places-evict n k t s i ∙ o.each k);
  cached = evict-cached t s o.cached;
  loading = rw (evict-inflight t s) o.loading;
}

make_room-next :
    (n : ℕ) (t : Text) (p : Pool) (c : Map Pool) (s : Factory) → (make_room n t p c s).next ≡ s.next
make_room-next n t p [] s = refl
make_room-next n t p ((oldest, q) ∷ c) s = elim (Bool-cases (leb n (length s.cache))) [
  | inl b ↦ rw b (evict-next oldest s)
  | inr b ↦ rw b refl
]

make_room-Own :
    (n : ℕ) (t : Text) (p : Pool) (c : Map Pool) (s : Factory)
    → All Own s.cache
    → All OwnLoad s.inflight
    → p.config_of ≡ t
    → All Own (make_room n t p c s).cache × All OwnLoad (make_room n t p c s).inflight
make_room-Own n t p [] s oc ol e =
    (All-set Own t p s.cache oc e, All-delete OwnLoad t s.inflight ol)
make_room-Own n t p ((oldest, q) ∷ c) s oc ol e = elim (Bool-cases (leb n (length s.cache))) [
  | inl b ↦ rw b (
    evict-cached oldest s oc,
    All-set OwnLoad t (evicting p) _ (rw (evict-inflight oldest s) ol) e,
  )
  | inr b ↦ rw b (All-set Own t p s.cache oc e, All-delete OwnLoad t s.inflight ol)
]

IsOwned-fetched :
    (n : ℕ) (t : Text) (s : Factory) (o : Option Phase)
    → get t s.inflight ≡ o
    → IsKeyed n s
    → IsOwned s
    → IsOwned (on_fetched n t o s)
IsOwned-fetched n t s (some fetching) e i o =
    let own = make_room-Own n t (new_pool t s) s.cache (count_pool s) o.cached o.loading refl in
    record {
      each = λ k. rw (make_room-next n t (new_pool t s) s.cache (count_pool s)) (
          grind (
            arith,
            o.each k,
            places-make_room n k t (new_pool t s) fetching s.cache (count_pool s)
                (IsKeyed-count_pool n s i) e,
          ));
      cached = own.0;
      loading = own.1;
    }
IsOwned-fetched n t s (some (evicting p)) e i o = o
IsOwned-fetched n t s none e i o = o

IsOwned-resumed :
    (n : ℕ) (t : Text) (s : Factory) (o : Option Phase)
    → get t s.inflight ≡ o
    → IsKeyed n s
    → IsOwned s
    → IsOwned (on_resumed n t o s)
IsOwned-resumed n t s (some (evicting p)) e i o =
    let own =
      make_room-Own n t p s.cache s o.cached o.loading
        (All-get OwnLoad t (evicting p) s.inflight o.loading e) in
    record {
      each = λ k.
          rw (make_room-next n t p s.cache s)
            (grind (arith, o.each k, places-make_room n k t p (evicting p) s.cache s i e));
      cached = own.0;
      loading = own.1;
    }
IsOwned-resumed n t s (some fetching) e i o = o
IsOwned-resumed n t s none e i o = o

IsOwned-failed :
    (n : ℕ) (t : Text) (s : Factory) (o : Option Phase)
    → get t s.inflight ≡ o
    → IsKeyed n s
    → IsOwned s
    → IsOwned (on_failed t o s)
IsOwned-failed n t s (some fetching) e i o = record {
  each = λ k. grind (
    arith,
    o.each k,
    weight-delete (one_loading k) t fetching s.inflight (omega (arith, i.once t)) e,
  );
  cached = o.cached;
  loading = All-delete OwnLoad t s.inflight o.loading;
}
IsOwned-failed n t s (some (evicting p)) e i o = o
IsOwned-failed n t s none e i o = o

IsOwned-request :
    (n : ℕ) (t : Text) (s : Factory) (c : Option Pool) (l : Option Phase)
    → get t s.cache ≡ c
    → get t s.inflight ≡ l
    → IsKeyed n s
    → IsOwned s
    → IsOwned (pool_for_tenant t c l s)
IsOwned-request n t s (some p) l e g i o = record {
  each = λ k. grind (
    arith,
    o.each k,
    weight-delete (one k) t p s.cache (omega (arith, i.once t)) e,
    weight-set_new (one k) t p (delete t s.cache) (get-delete t s.cache),
  );
  cached =
      All-set Own t p _ (All-delete Own t s.cache o.cached) (All-get Own t p s.cache o.cached e);
  loading = o.loading;
}
IsOwned-request n t s none (some ph) e g i o = o
IsOwned-request n t s none none e g i o = record {
  each = λ k. grind (arith, o.each k, weight-set_new (one_loading k) t fetching s.inflight g);
  cached = o.cached;
  loading = All-set OwnLoad t fetching s.inflight o.loading tt;
}

step-IsOwned : (n : ℕ) (ev : Event) (s : Factory) → IsKeyed n s → IsOwned s → IsOwned (step n ev s)
unfolding step
step-IsOwned n (request t) s i o = IsOwned-request n t s _ _ refl refl i o
step-IsOwned n (fetched t) s i o = IsOwned-fetched n t s _ refl i o
step-IsOwned n (failed t) s i o = IsOwned-failed n t s _ refl i o
step-IsOwned n (resumed t) s i o = IsOwned-resumed n t s _ refl i o
step-IsOwned n (idle t) s i o = IsOwned-evict n t s i o

-- After any events in any order, every pool that was made is in exactly one place, in the cache, in a
-- load that waits for room, or among the ended, so none is leaked and none ended twice; and each
-- pool that is cached or waits stands under the tenant whose secret it was made from.
pub run-IsOwned : (n : ℕ) (evs : List Event) → IsOwned (run n evs)
unfolding run
run-IsOwned n [] = record { each = λ k. grind arith; cached = tt; loading = tt }
run-IsOwned n (ev ∷ evs) = step-IsOwned n ev (run n evs) (run-IsKeyed n evs) (run-IsOwned n evs)
