-- ===== src/Db/Pool/Keys.antt =====
-- The keys of the two maps, and the size of the cache.
use monok8s.Prelude.{
  ℕ, suc, ◌+◌, ◌-◌, ◌≤◌, ◌<◌, ◌≡◌, refl, sym, Option, none, some, List, [], ◌∷◌, Text, length, leb,
  leb-false→lt, ◌==◌, arith, Bool-cases, Option-cases, inl, inr, ==_iff,
}
use monok8s.Prelude.Maps.{
  Map, get, delete, count, get-none, get-some, count-delete_self, count-delete_other,
  count-set_self, count-set_other, length-set, length-delete, length-delete-some,
}
use monok8s.Db.Pool.{
  Pool, Phase, fetching, evicting, Factory, Event, request, fetched, failed, resumed, idle, evict,
  settle, park, make_room, touch, begin_load, pool_for_tenant, count_pool, on_fetched, on_failed,
  on_resumed, step, run,
}

-- The cache's bound; a cache size of 0 still holds one pool.
abbrev pub limit : ℕ → ℕ
limit n = suc (n - 1)

-- A key is cached or in flight, once.
pub record IsKeyed (n : ℕ) (s : Factory) : Type 0 where
  pub once : (x : Text) → count x s.cache + count x s.inflight ≤ 1
  pub bounded : length s.cache ≤ limit n

IsKeyed-evict : (n : ℕ) (t : Text) (s : Factory) → IsKeyed n s → IsKeyed n (evict t s)
unfolding evict
IsKeyed-evict n t s i = elim (Option-cases (get t s.cache)) [
  | inl e ↦ rw e i
  | inr (p, e) ↦ rw e record {
    once = λ x. elim (Bool-cases (t == x)) [
      | inl b ↦ grind (arith, ==_iff t x, count-delete_self t s.cache, i.once x)
      | inr b ↦ grind (arith, count-delete_other t x s.cache b, i.once x)
    ];
    bounded = omega (arith, length-delete t s.cache, i.bounded);
  }
]

-- A key in flight is moved into a cache that has room.
IsKeyed-settle :
    (n : ℕ) (t : Text) (p : Pool) (ph : Phase) (s : Factory)
    → IsKeyed n s
    → get t s.inflight ≡ some ph
    → length s.cache < limit n
    → IsKeyed n (settle t p s)
IsKeyed-settle n t p ph s i g room = record {
  once = λ x. elim (Bool-cases (t == x)) [
    | inl b ↦
        grind
          (arith, ==_iff t x, count-delete_self t s.inflight, i.once t, count-set_self t p s.cache)
    | inr b ↦
        grind
          (arith, count-delete_other t x s.inflight b, count-set_other t x p s.cache b, i.once x)
  ];
  bounded = omega (arith, length-set t p s.cache, room);
}

IsKeyed-park :
    (n : ℕ) (t : Text) (p : Pool) (ph : Phase) (s : Factory)
    → IsKeyed n s
    → get t s.inflight ≡ some ph
    → IsKeyed n (park t p s)
IsKeyed-park n t p ph s i g = record {
  once = λ x. elim (Bool-cases (t == x)) [
    | inl b ↦ grind (
      arith,
      ==_iff t x,
      get-some t ph s.inflight g,
      i.once t,
      count-set_self t (evicting p) s.inflight,
    )
    | inr b ↦ grind (arith, count-set_other t x (evicting p) s.inflight b, i.once x)
  ];
  bounded = i.bounded;
}

IsKeyed-touch :
    (n : ℕ) (t : Text) (p : Pool) (s : Factory)
    → IsKeyed n s
    → get t s.cache ≡ some p
    → IsKeyed n (touch t p s)
IsKeyed-touch n t p s i g = record {
  once = λ x. elim (Bool-cases (t == x)) [
    | inl b ↦ grind (
      arith,
      ==_iff t x,
      get-some t p s.cache g,
      i.once t,
      count-delete_self t s.cache,
      count-set_self t p (delete t s.cache),
    )
    | inr b ↦ grind (
      arith,
      count-set_other t x p (delete t s.cache) b,
      count-delete_other t x s.cache b,
      i.once x,
    )
  ];
  bounded =
      omega (arith, length-set t p (delete t s.cache), length-delete-some t p s.cache g, i.bounded);
}

IsKeyed-begin_load :
    (n : ℕ) (t : Text) (s : Factory)
    → IsKeyed n s
    → get t s.cache ≡ none
    → get t s.inflight ≡ none
    → IsKeyed n (begin_load t s)
IsKeyed-begin_load n t s i g h = record {
  once = λ x. elim (Bool-cases (t == x)) [
    | inl b ↦ grind (
      arith,
      ==_iff t x,
      get-none t s.cache g,
      get-none t s.inflight h,
      count-set_self t fetching s.inflight,
    )
    | inr b ↦ grind (arith, count-set_other t x fetching s.inflight b, i.once x)
  ];
  bounded = i.bounded;
}

pub evict-inflight : (t : Text) (s : Factory) → (evict t s).inflight ≡ s.inflight
unfolding evict
evict-inflight t s = elim (Option-cases (get t s.cache)) [
  | inl e ↦ rw e refl
  | inr (p, e) ↦ rw e refl
]

IsKeyed-make_room :
    (n : ℕ) (t : Text) (p : Pool) (ph : Phase) (c : Map Pool) (s : Factory)
    → c ≡ s.cache
    → IsKeyed n s
    → get t s.inflight ≡ some ph
    → IsKeyed n (make_room n t p c s)
IsKeyed-make_room n t p ph [] s e i g = IsKeyed-settle n t p ph s i g (rw (sym e) (omega arith))
IsKeyed-make_room n t p ph ((oldest, q) ∷ c) s e i g = elim (Bool-cases (leb n (length s.cache))) [
  | inl b ↦ rw b (
      IsKeyed-park n t p ph (evict oldest s) (IsKeyed-evict n oldest s i)
        (rw (evict-inflight oldest s) g))
  | inr b ↦ rw b (IsKeyed-settle n t p ph s i g (omega (arith, leb-false→lt n (length s.cache) b)))
]

IsKeyed-request :
    (n : ℕ) (t : Text) (s : Factory)
    → IsKeyed n s
    → IsKeyed n (pool_for_tenant t (get t s.cache) (get t s.inflight) s)
IsKeyed-request n t s i = elim (Option-cases (get t s.cache)) [
  | inr (p, e) ↦ rw e (IsKeyed-touch n t p s i e)
  | inl e ↦ rw e (elim (Option-cases (get t s.inflight)) [
    | inl g ↦ rw g (IsKeyed-begin_load n t s i e g)
    | inr (ph, g) ↦ rw g i
  ])
]

pub IsKeyed-count_pool : (n : ℕ) (s : Factory) → IsKeyed n s → IsKeyed n (count_pool s)
IsKeyed-count_pool n s i = record { once = i.once; bounded = i.bounded }

IsKeyed-fetched :
    (n : ℕ) (t : Text) (s : Factory) (o : Option Phase)
    → get t s.inflight ≡ o
    → IsKeyed n s
    → IsKeyed n (on_fetched n t o s)
IsKeyed-fetched n t s (some fetching) e i =
    IsKeyed-make_room n t _ fetching s.cache (count_pool s) refl (IsKeyed-count_pool n s i) e
IsKeyed-fetched n t s (some (evicting p)) e i = i
IsKeyed-fetched n t s none e i = i

IsKeyed-resumed :
    (n : ℕ) (t : Text) (s : Factory) (o : Option Phase)
    → get t s.inflight ≡ o
    → IsKeyed n s
    → IsKeyed n (on_resumed n t o s)
IsKeyed-resumed n t s (some (evicting p)) e i =
    IsKeyed-make_room n t p (evicting p) s.cache s refl i e
IsKeyed-resumed n t s (some fetching) e i = i
IsKeyed-resumed n t s none e i = i

IsKeyed-failed :
    (n : ℕ) (t : Text) (s : Factory) (o : Option Phase) → IsKeyed n s → IsKeyed n (on_failed t o s)
IsKeyed-failed n t s (some fetching) i = record {
  once = λ x. elim (Bool-cases (t == x)) [
    | inl b ↦ grind (arith, ==_iff t x, count-delete_self t s.inflight, i.once x)
    | inr b ↦ grind (arith, count-delete_other t x s.inflight b, i.once x)
  ];
  bounded = i.bounded;
}
IsKeyed-failed n t s (some (evicting p)) i = i
IsKeyed-failed n t s none i = i

pub step-IsKeyed : (n : ℕ) (ev : Event) (s : Factory) → IsKeyed n s → IsKeyed n (step n ev s)
unfolding step
step-IsKeyed n (request t) s i = IsKeyed-request n t s i
step-IsKeyed n (fetched t) s i = IsKeyed-fetched n t s _ refl i
step-IsKeyed n (failed t) s i = IsKeyed-failed n t s _ i
step-IsKeyed n (resumed t) s i = IsKeyed-resumed n t s _ refl i
step-IsKeyed n (idle t) s i = IsKeyed-evict n t s i

-- After any events in any order, no tenant is cached twice, or cached while its load is in flight, or
-- loaded twice at once; and the cache has at most `cacheSize` pools, or one where `cacheSize` is 0.
pub run-IsKeyed : (n : ℕ) (evs : List Event) → IsKeyed n (run n evs)
unfolding run
run-IsKeyed n [] = record { once = λ x. omega arith; bounded = omega arith }
run-IsKeyed n (ev ∷ evs) = step-IsKeyed n ev (run n evs) (run-IsKeyed n evs)
