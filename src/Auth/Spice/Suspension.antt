-- ===== src/Auth/Spice/Suspension.antt =====
-- What the member writes of spicedb.ts change of the permissions that schema.zed computes.
use monok8s.Prelude.{
  ◌≡◌, ◌≢◌, refl, sym, Bool, true, false, Text, ==_refl, ==_ne, ◌==◌, arith, List, [], ◌∷◌, All,
  ◌∙◌,
}
use monok8s.Services.{Relationship, Update}
use monok8s.Auth.Roles.{TenantRole, role_name, TenantPermission}
use monok8s.Auth.Schema.{Facts, permits}
use monok8s.Auth.Spice.{obj}
use monok8s.Auth.Spice.Store.{RelationshipStore, on_tenant, facts, apply_updates}
use monok8s.Auth.Spice.Writes.Distinct.{same_relationship, is_distinct}
use monok8s.Auth.Spice.Writes.{
  MemberWrite, user_registered, tenant_created, member_joined, member_role_changed,
  member_suspended, member_reinstated, member_removed, user_denied, user_denied_revoked,
  member_updates,
}

-- A platform administrator keeps every permission but transfer_ownership.
abbrev pub admin_only : TenantPermission → Bool → Bool
admin_only TenantPermission.transfer_ownership b = false
admin_only p b = b

permits_suspended :
    (p : TenantPermission) (f : Facts)
    → f.suspended ≡ true
    → permits p f ≡ admin_only p f.platform_admin
unfolding permits
permits_suspended TenantPermission.read f h = ground arith
permits_suspended p f h = ground arith

pub record SameFacts (f g : Facts) : Type 0 where
  pub role : (r : TenantRole) → f.role r ≡ g.role r
  pub suspended : f.suspended ≡ g.suspended
  pub denied : f.denied ≡ g.denied
  pub platform_admin : f.platform_admin ≡ g.platform_admin

permits-SameFacts : (p : TenantPermission) {f g : Facts} → SameFacts f g → permits p f ≡ permits p g
unfolding permits
permits-SameFacts TenantPermission.transfer_ownership h = simp (h.role, h.suspended, h.denied)
permits-SameFacts p h = simp (h.role, h.suspended, h.denied) (rw h.platform_admin)

-- An update of another relationship changes nothing.
abbrev IsOther : Relationship → Update → Type 0
IsOther r u = same_relationship u.relationship r ≡ false

apply_updates_other :
    (us : List Update) (r : Relationship) (before : Bool)
    → All (IsOther r) us
    → apply_updates us r before ≡ before
apply_updates_other [] r before h = refl
apply_updates_other (u ∷ us) r before (h, hs) = rw h (apply_updates_other us r before hs)

-- The user whose relations a member write is about.
abbrev pub subject_of : MemberWrite → Text
subject_of (user_registered u) = u
subject_of (tenant_created t u) = u
subject_of (member_joined t u role) = u
subject_of (member_role_changed t u old_role new_role) = u
subject_of (member_suspended t u) = u
subject_of (member_reinstated t u) = u
subject_of (member_removed t u role) = u
subject_of (user_denied t u) = u
subject_of (user_denied_revoked t u) = u

-- The relations that a tenant's permissions read.
data IsRead : Relationship → Type 0 where
  role_of : (t v : Text) (r : TenantRole) → IsRead (on_tenant t (role_name r) (obj "user" v))
  suspension_of : (t v : Text) → IsRead (on_tenant t "suspended" (obj "user" v))
  denial_of : (t v : Text) → IsRead (on_tenant t "denied" (obj "user" v))

others :
    (w : MemberWrite) (r : Relationship)
    → IsRead r
    → (subject_of w == r.subject.object.object_id) ≡ false
    → All (IsOther r) (member_updates w)
unfolding member_updates
others (user_registered u) r (role_of t v TenantRole.owner) h = (refl, (refl, tt))
others (user_registered u) r (role_of t v _) h = (refl, (refl, tt))
others (user_registered u) r _ h = (refl, (refl, tt))
others (tenant_created t u) r (role_of t' v TenantRole.owner) h = (refl, (ground arith, tt))
others (tenant_created t u) r (role_of t' v _) h = (refl, (ground arith, tt))
others (tenant_created t u) r _ h = (refl, (ground arith, tt))
others (member_joined t u role) r _ h = (ground arith, tt)
others (member_role_changed t u old_role new_role) r _ h = (ground arith, (ground arith, tt))
others (member_suspended t u) r _ h = (ground arith, tt)
others (member_reinstated t u) r _ h = (ground arith, tt)
others (member_removed t u role) r _ h = (ground arith, (ground arith, tt))
others (user_denied t u) r _ h = (ground arith, tt)
others (user_denied_revoked t u) r _ h = (ground arith, tt)

module _ (store : RelationshipStore) where
  open store use {Store, holds, write}

  holds_other :
      (s : Store) (w : MemberWrite) (r : Relationship)
      → is_distinct (member_updates w) ≡ true
      → IsRead r
      → (subject_of w == r.subject.object.object_id) ≡ false
      → holds (write s (member_updates w)) r ≡ holds s r
  holds_other s w r d i h =
      store.holds-write s _ r d ∙ apply_updates_other _ r (holds s r) (others w r i h)

  module _ (s : Store) (via_group : TenantRole → Bool) (platform_admin : Bool) (t u : Text) where
    suspended_after :
        holds
          (write s (member_updates (member_suspended t u)))
          (on_tenant t "suspended" (obj "user" u))
        ≡ true
    unfolding member_updates
    suspended_after = rw (store.holds-write s _ _ refl) (ground (arith, ==_refl t, ==_refl u))

    -- Once a user is suspended on a tenant, the user has a permission on it exactly if the user is a
    -- platform administrator and the permission is not transfer_ownership, whatever roles it holds.
    pub permits-suspended :
        (p : TenantPermission)
        → permits p (
            facts store
              (write s (member_updates (member_suspended t u)))
              via_group
              platform_admin
              t
              (obj "user" u))
          ≡ admin_only p platform_admin
    permits-suspended p = permits_suspended p _ suspended_after

    abbrev pub suspend_then_reinstate : Store
    suspend_then_reinstate =
        write (write s (member_updates (member_suspended t u)))
          (member_updates (member_reinstated t u))

    role_kept :
        (r : TenantRole)
        → holds suspend_then_reinstate (on_tenant t (role_name r) (obj "user" u))
          ≡ holds s (on_tenant t (role_name r) (obj "user" u))
    unfolding member_updates
    role_kept TenantRole.owner =
        rw (store.holds-write _ _ _ refl, store.holds-write _ _ _ refl) refl
    role_kept _ = rw (store.holds-write _ _ _ refl, store.holds-write _ _ _ refl) refl

    denial_kept :
        holds suspend_then_reinstate (on_tenant t "denied" (obj "user" u))
        ≡ holds s (on_tenant t "denied" (obj "user" u))
    unfolding member_updates
    denial_kept = rw (store.holds-write _ _ _ refl, store.holds-write _ _ _ refl) refl

    suspension_lifted :
        holds suspend_then_reinstate (on_tenant t "suspended" (obj "user" u)) ≡ false
    unfolding member_updates
    suspension_lifted = rw (store.holds-write _ _ _ refl) (ground (arith, ==_refl t, ==_refl u))

    -- Suspending a user who is not suspended, and reinstating that user, gives back exactly the
    -- permissions on the tenant that the user had before.
    pub permits-reinstated :
        (p : TenantPermission)
        → holds s (on_tenant t "suspended" (obj "user" u)) ≡ false
        → permits p (facts store suspend_then_reinstate via_group platform_admin t (obj "user" u))
          ≡ permits p (facts store s via_group platform_admin t (obj "user" u))
    permits-reinstated p h = permits-SameFacts p (record {
      role = λ r. rw (role_kept r);
      suspended = rw suspension_lifted (sym h);
      denied = denial_kept;
      platform_admin = refl;
    })

    -- A write about another user, of any kind but the change of a role to itself, leaves every
    -- permission of this user on every tenant as it was.
    pub permits-other_user :
        (w : MemberWrite) (p : TenantPermission)
        → is_distinct (member_updates w) ≡ true
        → subject_of w ≢ u
        → permits p
            (facts store (write s (member_updates w)) via_group platform_admin t (obj "user" u))
          ≡ permits p (facts store s via_group platform_admin t (obj "user" u))
    permits-other_user w p d ne = permits-SameFacts p (record {
      role = λ r. rw (holds_other s w _ d (role_of t u r) (==_ne _ _ ne));
      suspended = holds_other s w _ d (suspension_of t u) (==_ne _ _ ne);
      denied = holds_other s w _ d (denial_of t u) (==_ne _ _ ne);
      platform_admin = refl;
    })
