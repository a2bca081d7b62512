-- ===== src/Frontend/Principals/Forms.antt =====
-- What a form lets through, the server's schema accepts. The client's expression for UUIDs is stricter than
-- zod's test, or the same.
use monok8s.Prelude.{◌≡◌, Bool, true, Option, none, some, Text, arith, trim}
use monok8s.Auth.Roles.{PrincipalType}
use monok8s.Api.Principals.Roles.{Principal}
use monok8s.Api.Router.Schemas.{
  CreateGroupInput, accepts_name, accepts_create_group, accepts_principal,
}
use monok8s.Frontend.Principals.{
  valid, matches_uuid, with_parent, validate_group_form, validate_member_user_id, as_type,
  with_type, validate_roles_form,
}

module _ (is_uuid : Text → Bool)
    (uuids : (t : Text) → matches_uuid t ≡ true → is_uuid t ≡ true) where
  with_parent-accepted :
      (name parent : Text) (input : CreateGroupInput)
      → accepts_name name ≡ true
      → with_parent name parent ≡ valid input
      → accepts_create_group is_uuid input ≡ true
  unfolding accepts_create_group
  with_parent-accepted name parent input n e = ground (arith, uuids parent)

  pub validate_group_form-accepted :
      (raw_name raw_parent : Text) (input : CreateGroupInput)
      → validate_group_form raw_name raw_parent ≡ valid input
      → accepts_create_group is_uuid input ≡ true
  unfolding validate_group_form
  validate_group_form-accepted raw_name raw_parent input e =
      ground (arith, with_parent-accepted (trim raw_name) (trim raw_parent) input)

  pub validate_member_user_id-accepted :
      (raw id : Text) → validate_member_user_id raw ≡ valid id → is_uuid id ≡ true
  unfolding validate_member_user_id
  validate_member_user_id-accepted raw id e = ground (arith, uuids (trim raw))

  with_type-accepted :
      (id : Text) (o : Option PrincipalType) (p : Principal)
      → is_uuid id ≡ true
      → with_type id o ≡ valid p
      → accepts_principal is_uuid p ≡ true
  with_type-accepted id none p u e = ground arith
  with_type-accepted id (some t) p u e = ground arith

  pub validate_roles_form-accepted :
      (raw_id raw_type : Text) (p : Principal)
      → validate_roles_form raw_id raw_type ≡ valid p
      → accepts_principal is_uuid p ≡ true
  unfolding validate_roles_form
  validate_roles_form-accepted raw_id raw_type p e =
      ground (arith, uuids (trim raw_id), with_type-accepted (trim raw_id) (as_type raw_type) p)
