-- ===== src/Prelude/Maps.antt =====
-- JavaScript's `Map<string, V>` as a list of its entries in insertion order, and how often a key
-- occurs in such a list, or how much its values weigh.
use Prim.Native.Nat.{ℕ, suc, ◌+◌, ◌≤◌, ◌<◌}
use mathlib.Core.Path.{◌≡◌, refl}
use mathlib.Core.Bool.{Bool, true, false}
use mathlib.Core.List.{List, [], ◌∷◌, ◌++◌}
use mathlib.Core.Option.{Option, none, some}
use native.Mathlib.Omega.{arith}
use monok8s.Prelude.Tests.{if◌then◌else◌}
use monok8s.Prelude.Lists.{length, All}
use monok8s.Prelude.Strings.{Text, ◌==◌, ==_iff, ==_refl}

abbrev pub Map {ℓ} : Type ℓ → Type ℓ
Map V = List (Text × V)

module _ {ℓ} {V : Type ℓ} where
  abbrev pub get : Text → Map V → Option V
  get t [] = none
  get t ((k, v) ∷ m) = let rest = get t m in if k == t then some v else rest

  abbrev pub delete : Text → Map V → Map V
  delete t [] = []
  delete t ((k, v) ∷ m) = let rest = delete t m in if k == t then rest else (k, v) ∷ rest

  -- A present key keeps its place.
  abbrev pub set : Text → V → Map V → Map V
  set t v [] = (t, v) ∷ []
  set t v ((k, w) ∷ m) = let rest = set t v m in if k == t then (t, v) ∷ m else (k, w) ∷ rest

  abbrev pub count : Text → Map V → ℕ
  count t [] = 0
  count t ((k, v) ∷ m) = let rest = count t m in if k == t then suc rest else rest

  abbrev pub weight : (V → ℕ) → Map V → ℕ
  weight f [] = 0
  weight f ((k, v) ∷ m) = f v + weight f m

  pub get-none : (t : Text) (m : Map V) → get t m ≡ none → count t m ≡ 0
  get-none t [] h = refl
  get-none t ((k, v) ∷ m) h = grind (arith, get-none t m)

  pub get-some : (t : Text) (v : V) (m : Map V) → get t m ≡ some v → 1 ≤ count t m
  get-some t v [] h = grind arith
  get-some t v ((k, w) ∷ m) h = grind (arith, get-some t v m)

  pub get-set : (t : Text) (v : V) (m : Map V) → get t (set t v m) ≡ some v
  get-set t v [] = grind (arith, ==_refl)
  get-set t v ((k, w) ∷ m) = grind (arith, ==_refl, get-set t v m)

  pub get-delete : (t : Text) (m : Map V) → get t (delete t m) ≡ none
  get-delete t [] = refl
  get-delete t ((k, v) ∷ m) = grind (arith, get-delete t m)

  pub get-set_other :
      (t x : Text) (v : V) (m : Map V) → (t == x) ≡ false → get x (set t v m) ≡ get x m
  get-set_other t x v [] h = grind arith
  get-set_other t x v ((k, w) ∷ m) h =
      grind (arith, get-set_other t x v m, ==_iff k t, ==_iff k x, ==_iff t x)

  pub get-delete_other : (t x : Text) (m : Map V) → (t == x) ≡ false → get x (delete t m) ≡ get x m
  get-delete_other t x [] h = refl
  get-delete_other t x ((k, v) ∷ m) h =
      grind (arith, get-delete_other t x m, ==_iff k t, ==_iff k x, ==_iff t x)

  pub count-delete_self : (t : Text) (m : Map V) → count t (delete t m) ≡ 0
  count-delete_self t [] = refl
  count-delete_self t ((k, v) ∷ m) = grind (arith, count-delete_self t m)

  pub count-delete_other :
      (t x : Text) (m : Map V) → (t == x) ≡ false → count x (delete t m) ≡ count x m
  count-delete_other t x [] h = refl
  count-delete_other t x ((k, v) ∷ m) h =
      grind (arith, count-delete_other t x m, ==_iff k t, ==_iff k x, ==_iff t x)

  pub count-set_self : (t : Text) (v : V) (m : Map V) → count t m ≤ 1 → count t (set t v m) ≤ 1
  count-set_self t v [] h = grind (arith, ==_refl)
  count-set_self t v ((k, w) ∷ m) h = grind (arith, ==_refl, count-set_self t v m)

  pub count-set_other :
      (t x : Text) (v : V) (m : Map V) → (t == x) ≡ false → count x (set t v m) ≡ count x m
  count-set_other t x v [] h = grind arith
  count-set_other t x v ((k, w) ∷ m) h =
      grind (arith, count-set_other t x v m, ==_iff k t, ==_iff k x, ==_iff t x)

  pub count-append : (x : Text) (m n : Map V) → count x (m ++ n) ≡ count x m + count x n
  count-append x [] n = omega arith
  count-append x ((k, v) ∷ m) n = grind (arith, count-append x m n)

  pub length-set : (t : Text) (v : V) (m : Map V) → length (set t v m) ≤ suc (length m)
  length-set t v [] = omega arith
  length-set t v ((k, w) ∷ m) = grind (arith, length-set t v m)

  pub length-delete : (t : Text) (m : Map V) → length (delete t m) ≤ length m
  length-delete t [] = omega arith
  length-delete t ((k, v) ∷ m) = grind (arith, length-delete t m)

  pub length-delete-some :
      (t : Text) (v : V) (m : Map V) → get t m ≡ some v → length (delete t m) < length m
  length-delete-some t v [] h = grind arith
  length-delete-some t v ((k, w) ∷ m) h = grind (arith, length-delete t m, length-delete-some t v m)

  pub weight-delete_absent :
      (f : V → ℕ) (t : Text) (m : Map V) → count t m ≡ 0 → weight f (delete t m) ≡ weight f m
  weight-delete_absent f t [] h = refl
  weight-delete_absent f t ((k, v) ∷ m) h = grind (arith, weight-delete_absent f t m)

  pub weight-delete :
      (f : V → ℕ) (t : Text) (v : V) (m : Map V)
      → count t m ≤ 1
      → get t m ≡ some v
      → weight f (delete t m) + f v ≡ weight f m
  weight-delete f t v [] c h = grind arith
  weight-delete f t v ((k, w) ∷ m) c h =
      grind (arith, weight-delete f t v m, weight-delete_absent f t m)

  pub weight-set_new :
      (f : V → ℕ) (t : Text) (v : V) (m : Map V)
      → get t m ≡ none
      → weight f (set t v m) ≡ weight f m + f v
  weight-set_new f t v [] h = omega arith
  weight-set_new f t v ((k, w) ∷ m) h = grind (arith, weight-set_new f t v m)

  pub weight-set_old :
      (f : V → ℕ) (t : Text) (v w : V) (m : Map V)
      → get t m ≡ some w
      → weight f (set t v m) + f w ≡ weight f m + f v
  weight-set_old f t v w [] h = grind arith
  weight-set_old f t v w ((k, u) ∷ m) h = grind (arith, weight-set_old f t v w m)

module _ {ℓ κ} {V : Type ℓ} (P : Text × V → Type κ) where
  pub All-delete : (t : Text) (m : Map V) → All P m → All P (delete t m)
  All-delete t [] h = tt
  All-delete t ((k, v) ∷ m) h =
      elim (k == t) as (λ b. All P (if b then delete t m else (k, v) ∷ delete t m)) [
        | true ↦ All-delete t m h.1
        | false ↦ (h.0, All-delete t m h.1)
      ]

  pub All-set : (t : Text) (v : V) (m : Map V) → All P m → P (t, v) → All P (set t v m)
  All-set t v [] h p = (p, tt)
  All-set t v ((k, w) ∷ m) h p =
      elim (k == t) as (λ b. All P (if b then (t, v) ∷ m else (k, w) ∷ set t v m)) [
        | true ↦ (p, h.1)
        | false ↦ (h.0, All-set t v m h.1 p)
      ]

  All-get-head :
      (b : Bool) (t k : Text) (v w : V) (rest : Option V)
      → (k == t) ≡ b
      → (if b then some w else rest) ≡ some v
      → P (k, w)
      → (rest ≡ some v → P (t, v))
      → P (t, v)
  All-get-head true t k v w rest b e p r =
      let kt : t ≡ k = grind (arith, ==_iff k t) in let wv : v ≡ w = grind arith in rw (kt, wv) p
  All-get-head false t k v w rest b e p r = r e

  pub All-get : (t : Text) (v : V) (m : Map V) → All P m → get t m ≡ some v → P (t, v)
  All-get t v [] h e = absurd (grind arith)
  All-get t v ((k, w) ∷ m) h e =
      All-get-head (k == t) t k v w (get t m) refl e h.0 (All-get t v m h.1)
