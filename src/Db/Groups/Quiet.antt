-- ===== src/Db/Groups/Quiet.antt =====
-- The statements on groups start no workflow.
use monok8s.Prelude.{
  refl, Bool, true, false, Option, none, some, Text, String, if◌then◌else◌, head?,
}
use monok8s.Services.{Env, PoolId, Thrown}
use monok8s.Services.Exec.{Exec, raise}
use monok8s.Services.Traces.{IsQuiet, IsQuiet-bind, IsQuiet-perform, IsQuiet-pure, IsQuiet-raise}
use monok8s.Db.Ask.{inserted}
use monok8s.Db.Groups
use monok8s.Db.Groups.{Builder, Patch, send_update}

IsQuiet-inserted {ℓ} :
    {A : Type ℓ} (message : String) (row : Option A) → IsQuiet (inserted message row)
IsQuiet-inserted message none = IsQuiet-raise _
IsQuiet-inserted message (some row) = IsQuiet-pure row

IsQuiet-raise_or {ℓ} :
    {A : Type ℓ} (b : Bool) (e : Thrown) (m : Exec A)
    → IsQuiet m
    → IsQuiet (if b then raise e else m)
IsQuiet-raise_or true e m q = IsQuiet-raise e
IsQuiet-raise_or false e m q = q

module _ (env : Env) (pool : PoolId) where
  pub IsQuiet-find_by_id : (id : Text) → IsQuiet (Groups.find_by_id env pool id)
  unfolding Groups.find_by_id
  IsQuiet-find_by_id id =
      IsQuiet-bind _ _ (IsQuiet-perform _ _ (λ h. refl)) (λ rows. IsQuiet-pure _)

  pub IsQuiet-create :
      (tenant_id name : Text) (parent : Option Text)
      → IsQuiet (Groups.create env pool tenant_id name parent)
  unfolding Groups.create
  IsQuiet-create tenant_id name parent =
      IsQuiet-bind _ _ (IsQuiet-perform _ _ (λ h. refl)) (λ rows. IsQuiet-inserted _ (head? rows))

  IsQuiet-send_update : (id : Text) (b : Builder) → IsQuiet (send_update env pool id b)
  unfolding send_update
  IsQuiet-send_update id b =
      IsQuiet-bind _ _ (IsQuiet-perform _ _ (λ h. refl)) (λ rows. IsQuiet-pure _)

  pub IsQuiet-update : (id : Text) (input : Patch) → IsQuiet (Groups.update env pool id input)
  unfolding Groups.update
  IsQuiet-update id input = IsQuiet-raise_or _ _ _ (IsQuiet-send_update id (Groups.build input))

  pub IsQuiet-delete : (id : Text) → IsQuiet (Groups.delete env pool id)
  unfolding Groups.delete
  IsQuiet-delete id = IsQuiet-bind _ _ (IsQuiet-perform _ _ (λ h. refl)) (λ rows. IsQuiet-pure _)
