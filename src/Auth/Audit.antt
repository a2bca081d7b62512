-- ===== src/Auth/Audit.antt =====
-- packages/auth/src/middleware.ts: `auditMiddleware`, around a mutation's body `next`. The request's
-- payload and the metadata are of any type; the emitter is an argument, as it is a variable there.
pub mod Emission
use monok8s.Prelude.{
  Bool, true, false, not, Option, none, some, Text, String, lit, is_blank, if◌then◌else◌,
}
use monok8s.Services.{
  Env, PoolId, Thrown, trpc_error, error, other, Result, ok, throw, Trace, clock,
}
use monok8s.Services.Exec.{Exec, pure, raise, perform, continue, ◌>>=◌, ◌>>◌}
use monok8s.Auth.Zitadel.{VerifiedUser}
use monok8s.Auth.Middleware.{attempt}

pub data ProcedureType : Type 0 where
  query mutation subscription : ProcedureType

abbrev pub type_name : ProcedureType → String
type_name query = "query"
type_name mutation = "mutation"
type_name subscription = "subscription"

-- The `error` of a tRPC result that is not ok.
pub data Failure : Type 0 where
  an_error a_string : Text → Failure
  no_message : Failure

-- What `next()` returns: tRPC's result, ok or not.
pub data Answer {ℓ} (A : Type ℓ) : Type ℓ where
  data_of : A → Answer A
  failure : Failure → Answer A

pub record AuditTarget : Type 0 where
  pub kind : Text
  pub id : Option Text

pub data Outcome : Type 0 where
  success : Outcome
  failed : Text → Outcome

-- AuditEnvelope, its `outcome` and `error` as one value. The principal's type is always "user".
pub record AuditEnvelope {κ} (M : Type κ) : Type κ where
  pub principal : Text
  pub action : Text
  pub target : AuditTarget
  pub outcome : Outcome
  pub metadata : Option M
  pub timestamp : Text

-- AuditEventSpec; the two builders may throw. No `metadata` builder is one that returns nothing.
pub record AuditEventSpec {ℓ κ ι} (I : Type ι) (A : Type ℓ) (M : Type κ) : Type (ℓ ⊔ κ ⊔ ι) where
  pub action : Text
  pub target : I → Result AuditTarget
  pub metadata : I → Option A → Result (Option M)

abbrev pub from_result {ℓ} : {A : Type ℓ} → Result A → Exec A
from_result (ok a) = pure a
from_result (throw e) = raise e

-- A thrown value is tested for truth. `other []` is any falsy value, the empty string, null, undefined or
-- zero alike, since nothing is read of them but that; any other `other t` is a value with the text `t`,
-- which is not empty.
abbrev pub is_truthy : Thrown → Bool
is_truthy (other t) = not (is_blank t)
is_truthy _ = true

abbrev pub thrown_message : Thrown → Text
thrown_message (trpc_error _ m) = m
thrown_message (error m) = m
thrown_message (other t) = t

abbrev pub failure_message : Failure → Text
failure_message (an_error m) = m
failure_message (a_string m) = m
failure_message no_message = lit "unknown error"

module _ {ℓ} {A : Type ℓ} where
  -- The body's outcome: `result` and `thrownError`.
  abbrev pub outcome_of : Result (Answer A) → Outcome
  outcome_of (throw e) = if is_truthy e then failed (thrown_message e) else success
  outcome_of (ok (failure f)) = failed (failure_message f)
  outcome_of (ok (data_of a)) = success

  abbrev pub data_in : Result (Answer A) → Option A
  data_in (ok (data_of a)) = some a
  data_in _ = none

  -- The end: `throw thrownError`, or `return result!`, which is undefined where a falsy value was thrown.
  abbrev pub rethrow : Result (Answer A) → Exec (Option (Answer A))
  rethrow (ok answer) = pure (some answer)
  rethrow (throw e) = if is_truthy e then raise e else pure none

module _ {ℓ κ ι} {I : Type ι} {A : Type ℓ} {M : Type κ} (env : Env) where
  -- The part after the checks. A failure of the emitter is logged and swallowed.
  unfoldable pub audit_around :
      AuditEventSpec I A M
      → (VerifiedUser → Option PoolId → AuditEnvelope M → Exec (Unit {0}))
      → VerifiedUser
      → Option PoolId
      → Exec I
      → Exec (Answer A)
      → Exec (Option (Answer A))
  audit_around spec emitter user db get_raw_input next = do
    raw_input ← get_raw_input
    target ← from_result (spec.target raw_input)
    started_at ← perform (λ h. ok (env.to_iso (env.on_clock h))) clock
    result ← attempt next
    metadata ← from_result (spec.metadata raw_input (data_in result))
    let envelope : AuditEnvelope M = record {
      principal = user.user_id;
      action = spec.action;
      target = target;
      outcome = outcome_of result;
      metadata = metadata;
      timestamp = started_at;
    }
    _ ← attempt (emitter user db envelope)
    rethrow result

  unfoldable pub audit_middleware :
      AuditEventSpec I A M
      → (VerifiedUser → Option PoolId → AuditEnvelope M → Exec (Unit {0}))
      → ProcedureType
      → Option VerifiedUser
      → Option PoolId
      → Exec I
      → Exec (Answer A)
      → Exec (Option (Answer A))
  audit_middleware spec emitter mutation (some user) db get_raw_input next =
      audit_around spec emitter user db get_raw_input next
  audit_middleware spec emitter mutation none db get_raw_input next = raise (
      error
        (lit "auditMiddleware: requires authedProcedure / tenantProcedure upstream (no ctx.user)"))
  audit_middleware spec emitter query _ db get_raw_input next =
      raise (error (lit "auditMiddleware: mutation-only (got query)"))
  audit_middleware spec emitter subscription _ db get_raw_input next =
      raise (error (lit "auditMiddleware: mutation-only (got subscription)"))
