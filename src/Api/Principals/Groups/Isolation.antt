-- ===== src/Api/Principals/Groups/Isolation.antt =====
-- Another tenant's group is not written.
use monok8s.Prelude.{◌≡◌, refl, Bool, Option, none, Text}
use monok8s.Services.{Env, PoolId, Group, Trace, ok}
use monok8s.Db.Groups
use monok8s.Db.Groups.{Patch}
use monok8s.Api.Principals.Groups.{is_own, update_group, delete_group}

-- A group that is missing or is another tenant's is neither updated nor deleted: both handlers answer
-- null, and the one query that they send is the lookup.
pub update_group-foreign :
    (env : Env) (db : PoolId) (t id : Text) (patch : Patch) (row : Option Group) (h h1 : Trace)
    → Groups.find_by_id env db id h ≡ (ok row, h1)
    → is_own t row ≡ Bool.false
    → (update_group env db t id patch h ≡ (ok none, h1))
      × (delete_group env db t id h ≡ (ok none, h1))
unfolding update_group delete_group
update_group-foreign env db t id patch row h h1 e f = rw (e, f) (refl, refl)
