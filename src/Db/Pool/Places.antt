-- ===== src/Db/Pool/Places.antt =====
-- How often a pool is cached, waits for room, or was ended; only a new pool changes the count.
use monok8s.Prelude.{
  ℕ, ◌+◌, ◌≡◌, refl, none, some, List, [], ◌∷◌, Text, length, leb, nat_eq, arith, if◌then◌else◌,
  Bool-cases, Option-cases, inl, inr,
}
use monok8s.Prelude.Maps.{Map, get, get-some, weight, weight-delete, weight-set_new, weight-set_old}
use monok8s.Db.Pool.{Pool, Phase, fetching, evicting, Factory, evict, settle, park, make_room}
use monok8s.Db.Pool.Keys.{IsKeyed, evict-inflight}

abbrev pub one : ℕ → Pool → ℕ
one k p = if nat_eq p.number k then 1 else 0

abbrev pub one_loading : ℕ → Phase → ℕ
one_loading k fetching = 0
one_loading k (evicting p) = one k p

abbrev pub ended_times : ℕ → List Pool → ℕ
ended_times k [] = 0
ended_times k (p ∷ ps) = one k p + ended_times k ps

-- How often pool `k` is cached, waits for room, or was ended.
abbrev pub places : ℕ → Factory → ℕ
places k s = weight (one k) s.cache + weight (one_loading k) s.inflight + ended_times k s.ended

pub places-evict :
    (n k : ℕ) (t : Text) (s : Factory) → IsKeyed n s → places k (evict t s) ≡ places k s
unfolding evict
places-evict n k t s i = elim (Option-cases (get t s.cache)) [
  | inl e ↦ rw e refl
  | inr (p, e) ↦ rw e (omega (arith, weight-delete (one k) t p s.cache (omega (arith, i.once t)) e))
]

cached-none :
    (n : ℕ) (t : Text) (ph : Phase) (s : Factory)
    → IsKeyed n s
    → get t s.inflight ≡ some ph
    → get t s.cache ≡ none
cached-none n t ph s i g = elim (Option-cases (get t s.cache)) [
  | inl e ↦ e
  | inr (p, e) ↦
      absurd (omega (arith, get-some t p s.cache e, get-some t ph s.inflight g, i.once t))
]

places-settle :
    (n k : ℕ) (t : Text) (p : Pool) (ph : Phase) (s : Factory)
    → IsKeyed n s
    → get t s.inflight ≡ some ph
    → places k (settle t p s) + one_loading k ph ≡ places k s + one k p
places-settle n k t p ph s i g = omega (
  arith,
  weight-delete (one_loading k) t ph s.inflight (omega (arith, i.once t)) g,
  weight-set_new (one k) t p s.cache (cached-none n t ph s i g),
)

places-park :
    (k : ℕ) (t : Text) (p : Pool) (ph : Phase) (s : Factory)
    → get t s.inflight ≡ some ph
    → places k (park t p s) + one_loading k ph ≡ places k s + one k p
places-park k t p ph s g =
    omega (arith, weight-set_old (one_loading k) t (evicting p) ph s.inflight g)

pub places-make_room :
    (n k : ℕ) (t : Text) (p : Pool) (ph : Phase) (c : Map Pool) (s : Factory)
    → IsKeyed n s
    → get t s.inflight ≡ some ph
    → places k (make_room n t p c s) + one_loading k ph ≡ places k s + one k p
places-make_room n k t p ph [] s i g = places-settle n k t p ph s i g
places-make_room n k t p ph ((oldest, q) ∷ c) s i g = elim (Bool-cases (leb n (length s.cache))) [
  | inl b ↦ rw b (
      omega (
        arith,
        places-park k t p ph (evict oldest s) (rw (evict-inflight oldest s) g),
        places-evict n k oldest s i,
      ))
  | inr b ↦ rw b (places-settle n k t p ph s i g)
]
