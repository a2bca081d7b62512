-- ===== src/Api/Router/Schemas.antt =====
-- apps/api/src/routers/principals.ts: the schemas of the inputs. zod's test of UUIDs is the argument
-- `is_uuid`; the types carry the enumerations, and `.strict()` is not modelled.
use monok8s.Prelude.{Bool, true, ◌&&◌, ◌||◌, Option, none, some, Text, is_some, leb, length}
use monok8s.Db.Groups.{Patch}
use monok8s.Api.Principals.Roles.{Principal}
use monok8s.Api.Router.{
  Mutation, suspend, reinstate, add_member, remove_member, assign, unassign, change,
  create_temporary, accepts,
}

-- `parentGroupId` may be absent, null or a value.
pub record CreateGroupInput : Type 0 where
  pub name : Text
  pub parent_group_id : Option (Option Text)

-- `z.string().min(1).max(128)`
abbrev pub accepts_name : Text → Bool
accepts_name name = leb 1 (length name) && leb (length name) 128

module _ (is_uuid : Text → Bool) where
  -- `z.string().uuid().nullable().optional()`
  abbrev pub accepts_parent : Option (Option Text) → Bool
  accepts_parent none = true
  accepts_parent (some none) = true
  accepts_parent (some (some id)) = is_uuid id

  -- CreateGroupSchema
  unfoldable pub accepts_create_group : CreateGroupInput → Bool
  accepts_create_group input = accepts_name input.name && accepts_parent input.parent_group_id

  abbrev pub accepts_new_name : Option Text → Bool
  accepts_new_name none = true
  accepts_new_name (some name) = accepts_name name

  -- UpdateGroupInputSchema: the ID, and the patch, which is not empty.
  unfoldable pub accepts_update_group : Text → Patch → Bool
  accepts_update_group id patch =
      is_uuid id
      && (accepts_new_name patch.name
          && (accepts_parent patch.parent_group_id
              && (is_some patch.name || is_some patch.parent_group_id)))

  -- DeleteGroupInputSchema and IdInputSchema
  abbrev pub accepts_id : Text → Bool
  accepts_id id = is_uuid id

  -- PrincipalSchema
  abbrev pub accepts_principal : Principal → Bool
  accepts_principal p = is_uuid p.id

  -- UserSuspensionInputSchema, GroupMembershipInputSchema, and the objects of the role schemas.
  abbrev pub well_formed : Mutation → Bool
  well_formed (suspend u) = is_uuid u
  well_formed (reinstate u) = is_uuid u
  well_formed (add_member g u) = is_uuid g && is_uuid u
  well_formed (remove_member g u) = is_uuid g && is_uuid u
  well_formed (assign p role) = accepts_principal p
  well_formed (unassign p role) = accepts_principal p
  well_formed (change p old_role new_role) = accepts_principal p
  well_formed (create_temporary input) = is_uuid input.subject_id

  unfoldable pub accepts_mutation : Mutation → Bool
  accepts_mutation m = well_formed m && accepts m
