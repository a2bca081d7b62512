-- ===== src/Api/Router/Edits/Quiet.antt =====
-- These mutations start no workflow, whatever is answered.
use monok8s.Prelude.{refl, Bool, true, false, Option, Text, if◌then◌else◌}
use monok8s.Services.{Env, PoolId}
use monok8s.Services.Exec.{Exec}
use monok8s.Services.Traces.{IsQuiet, IsQuiet-bind, IsQuiet-perform, IsQuiet-pure, IsQuiet-raise}
use monok8s.Db.Grants
use monok8s.Db.Groups.{Patch}
use monok8s.Db.Groups.Quiet.{IsQuiet-find_by_id, IsQuiet-create, IsQuiet-update, IsQuiet-delete}
use monok8s.Api.Principals.Groups.{update_group, delete_group}
use monok8s.Api.Grants.{revoke_temporary_grant, update_grant_reason}
use monok8s.Api.Router.Edits.{
  Edit, group_create, group_update, group_delete, grant_revoke, grant_update_reason, resolve_edit,
  edit,
}

IsQuiet-if {ℓ} :
    {A : Type ℓ} (b : Bool) (m n : Exec A) → IsQuiet m → IsQuiet n → IsQuiet (if b then m else n)
IsQuiet-if true m n p q = p
IsQuiet-if false m n p q = q

module _ (env : Env) (db : PoolId) where
  IsQuiet-update_group : (t id : Text) (p : Patch) → IsQuiet (update_group env db t id p)
  unfolding update_group
  IsQuiet-update_group t id p =
      IsQuiet-bind _ _ (IsQuiet-find_by_id env db id)
        (λ g. IsQuiet-if _ _ _ (IsQuiet-update env db id p) (IsQuiet-pure _))

  IsQuiet-delete_group : (t id : Text) → IsQuiet (delete_group env db t id)
  unfolding delete_group
  IsQuiet-delete_group t id =
      IsQuiet-bind _ _ (IsQuiet-find_by_id env db id)
        (λ g. IsQuiet-if _ _ _ (IsQuiet-delete env db id) (IsQuiet-pure _))

  IsQuiet-revoke : (t actor id : Text) → IsQuiet (revoke_temporary_grant env t actor id)
  unfolding revoke_temporary_grant
  IsQuiet-revoke t actor id =
      IsQuiet-bind _ _ (IsQuiet-perform _ _ (λ h. refl)) (λ _. IsQuiet-pure _)

  IsQuiet-find_grant : (id : Text) → IsQuiet (Grants.find_by_id env db id)
  unfolding Grants.find_by_id
  IsQuiet-find_grant id =
      IsQuiet-bind _ _ (IsQuiet-perform _ _ (λ h. refl)) (λ rows. IsQuiet-pure _)

  IsQuiet-set_reason :
      (id : Text) (reason : Option Text) → IsQuiet (Grants.update_reason env db id reason)
  unfolding Grants.update_reason
  IsQuiet-set_reason id reason =
      IsQuiet-bind _ _ (IsQuiet-perform _ _ (λ h. refl)) (λ rows. IsQuiet-pure _)

  IsQuiet-update_reason :
      (t id : Text) (reason : Option Text) → IsQuiet (update_grant_reason env db t id reason)
  unfolding update_grant_reason
  IsQuiet-update_reason t id reason =
      IsQuiet-bind _ _ (IsQuiet-find_grant id)
        (λ g. IsQuiet-if _ _ _ (IsQuiet-set_reason id reason) (IsQuiet-pure _))

  module _ (is_uuid : Text → Bool) (t actor : Text) where
    IsQuiet-resolve_edit : (e : Edit) → IsQuiet (resolve_edit is_uuid env db t actor e)
    unfolding resolve_edit
    IsQuiet-resolve_edit (group_create input) =
        IsQuiet-bind _ _ (IsQuiet-create env db _ _ _) (λ g. IsQuiet-pure _)
    IsQuiet-resolve_edit (group_update id p) =
        IsQuiet-bind _ _ (IsQuiet-update_group t id p) (λ g. IsQuiet-pure _)
    IsQuiet-resolve_edit (group_delete id) =
        IsQuiet-bind _ _ (IsQuiet-delete_group t id) (λ g. IsQuiet-pure _)
    IsQuiet-resolve_edit (grant_revoke id) =
        IsQuiet-bind _ _ (IsQuiet-revoke t actor id) (λ g. IsQuiet-pure _)
    IsQuiet-resolve_edit (grant_update_reason id reason) =
        IsQuiet-bind _ _ (IsQuiet-update_reason t id reason) (λ g. IsQuiet-pure _)

    pub IsQuiet-edit : (e : Edit) → IsQuiet (edit is_uuid env db t actor e)
    unfolding edit
    IsQuiet-edit e = IsQuiet-if _ _ _ (IsQuiet-resolve_edit e) (IsQuiet-raise _)
