-- ===== src/Services/Exec.antt =====
-- Code that calls the outside, and returns or throws. The trace of the calls comes back in both
-- cases.
use monok8s.Prelude.{List, [], ◌∷◌, Text}
use monok8s.Services.Wire.{Thrown, trpc_error, error, other, Result, ok, throw, Trace, Call}

abbrev pub Exec {ℓ} : Type ℓ → Type ℓ
Exec A = Trace → Result A × Trace

-- A result that is used, or passed on where it is a failure.
abbrev pub then_result {ℓ κ} : {A : Type ℓ} {B : Type κ} → Result A → (A → Result B) → Result B
then_result (ok a) f = f a
then_result (throw e) f = throw e

-- `e instanceof Error ? e.message : String(e)`; a value that is no `Error` is known by its text.
abbrev pub detail_of : Thrown → Text
detail_of (trpc_error _ m) = m
detail_of (error m) = m
detail_of (other m) = m

module _ {ℓ} {A : Type ℓ} where
  abbrev pub pure : A → Exec A
  pure a h = (ok a, h)

  abbrev pub raise : Thrown → Exec A
  raise e h = (throw e, h)

  -- A call, and its answer.
  abbrev pub perform : (Trace → Result A) → Call → Exec A
  perform answer c h = (answer h, c ∷ h)

module _ {ℓ κ} {A : Type ℓ} {B : Type κ} where
  abbrev pub continue : Result A × Trace → (A → Exec B) → Result B × Trace
  continue (ok a, h) f = f a h
  continue (throw e, h) f = (throw e, h)

  infixl 10 ◌>>=◌
  abbrev pub ◌>>=◌ : Exec A → (A → Exec B) → Exec B
  ◌>>=◌ m f h = continue (m h) f

infixl 10 ◌>>◌
abbrev pub ◌>>◌ {ℓ} : {B : Type ℓ} → Exec (Unit {0}) → Exec B → Exec B
m >> k = m >>= λ _. k

-- `Promise.all`: every call is made, in order; one failure fails the whole, the first in order.
module _ {ℓ κ} {A : Type ℓ} {B : Type κ} where
  abbrev pub pair_results : Result A → Result B → Result (A × B)
  pair_results (ok a) (ok b) = ok (a, b)
  pair_results (ok a) (throw e) = throw e
  pair_results (throw e) r = throw e

  abbrev pub both : Exec A → Exec B → Exec (A × B)
  both m n h = let (a, h1) = m h in let (b, h2) = n h1 in (pair_results a b, h2)

module _ {ℓ} {A : Type ℓ} where
  abbrev pub cons_results : Result A → Result (List A) → Result (List A)
  cons_results (ok a) (ok as') = ok (a ∷ as')
  cons_results (ok a) (throw e) = throw e
  cons_results (throw e) r = throw e

  unfoldable pub all_of : List (Exec A) → Exec (List A)
  all_of [] h = (ok [], h)
  all_of (m ∷ ms) h =
      let (a, h1) = m h in let (rest, h2) = all_of ms h1 in (cons_results a rest, h2)
