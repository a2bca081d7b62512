-- ===== src/Db/Ask.antt =====
-- What the helpers share: a helper sends one parameterised statement to the pool that it is given;
-- what Postgres answers is the `Env`'s.
pub mod Numbers
use monok8s.Prelude.{
  ℕ, zero, suc, ◌+◌, ◌/◌, ◌%◌, String, Option, none, some, List, [], ◌∷◌, ◌++◌, Text, lit, ltb,
  if◌then◌else◌,
}
use monok8s.Services.{PoolId, Param, null, text, Query, query, Trace, Result, error}
use monok8s.Services.Exec.{Exec, pure, raise, perform}

-- `value ?? null`
abbrev pub nullable : Option Text → Param
nullable none = null
nullable (some t) = text t

abbrev pub ask {ℓ} : {A : Type ℓ} → (Trace → Query → Result A) → PoolId → Text → List Param → Exec A
ask answer pool sql params =
    let q : Query = record { pool = pool; sql = sql; params = params } in
    perform (λ h. answer h q) (query q)

-- `if (!row) throw new Error(...)`
abbrev pub inserted {ℓ} : {A : Type ℓ} → String → Option A → Exec A
inserted message none = raise (error (lit message))
inserted message (some row) = pure row

-- A number in a template literal, most significant digit first; `n` digits at most.
digits : ℕ → ℕ → Text
digits zero k = []
digits (suc n) k =
    let more = digits n (k / 10) in
    let last : Text = (b'0' + k % 10) ∷ [] in if ltb k 10 then last else more ++ last

unfoldable pub decimal : ℕ → Text
unfolding digits
decimal k = digits (suc k) k
