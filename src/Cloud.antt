-- ===== src/Cloud.antt =====
-- packages/cloud-adapters: the adapters for bare metal. What they call is a server: a function of the calls,
-- with a state of its own.
pub mod Secrets
pub mod Database
pub mod Observability
use monok8s.Prelude.{◌≡◌, refl, Bool, true, false, arith}
use monok8s.Services.{Result, ok, throw, Thrown}

-- A computation that calls a server with states in `S`.
abbrev pub Served {ℓ κ} : Type ℓ → Type κ → Type (ℓ ⊔ κ)
Served S A = S → Result A × S

module _ {ℓ κ} {S : Type ℓ} {A : Type κ} where
  abbrev pub return : A → Served S A
  return a s = (ok a, s)

  abbrev pub fail : Thrown → Served S A
  fail e s = (throw e, s)

module _ {ℓ κ λ'} {S : Type ℓ} {A : Type κ} {B : Type λ'} where
  abbrev pub after : Result A × S → (A → Served S B) → Result B × S
  after (ok a, s) f = f a s
  after (throw e, s) f = (throw e, s)

  infixl 10 ◌>>=◌
  abbrev pub ◌>>=◌ : Served S A → (A → Served S B) → Served S B
  ◌>>=◌ m f s = after (m s) f

abbrev pub is_throw {ℓ} : {A : Type ℓ} → Result A → Bool
is_throw (ok a) = false
is_throw (throw e) = true

-- What follows a failure does not run.
pub after-throw {ℓ κ λ'} :
    {S : Type ℓ} {A : Type κ} {B : Type λ'} (r : Result A) (s : S) (f : A → Served S B)
    → is_throw r ≡ true
    → is_throw (after (r, s) f).0 ≡ true
after-throw (ok a) s f e = absurd (ground arith)
after-throw (throw x) s f e = refl

pub after-return {ℓ κ λ'} :
    {S : Type ℓ} {A : Type κ} {B : Type λ'} (r : Result A) (s : S) (b : B)
    → (after (r, s) (λ _. return b)).1 ≡ s
after-return (ok a) s b = refl
after-return (throw x) s b = refl
