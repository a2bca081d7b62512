-- ===== src/Db/Groups/Statement.antt =====
-- The UPDATE statement that the builder puts together.
use monok8s.Prelude.{◌≡◌, refl, Option, none, some, List, [], ◌∷◌, Text, lit, head?}
use monok8s.Services.{Env, Group, PoolId, Param, text, error}
use monok8s.Services.Exec.{Exec, pure, raise, ◌>>=◌}
use monok8s.Db.Ask.{nullable, ask, decimal}
use monok8s.Db.Groups.{Patch, set_column, set_name, set_parent, build, send_update, update}

-- One statement, and its first row.
abbrev pub ask_one : Env → PoolId → Text → List Param → Exec (Option Group)
ask_one env pool sql params = do rows ← ask env.on_query_groups pool sql params; pure (head? rows)

-- What a patch should send, written out.
abbrev pub statement :
    Env → PoolId → Text → Option Text → Option (Option Text) → Exec (Option Group)
statement env pool id (some n) (some p) =
    ask_one env pool
      (lit "UPDATE groups SET name = $1, parent_group_id = $2 WHERE id = $3 RETURNING *")
      (text n ∷ nullable p ∷ text id ∷ [])
statement env pool id (some n) none =
    ask_one env pool (lit "UPDATE groups SET name = $1 WHERE id = $2 RETURNING *")
      (text n ∷ text id ∷ [])
statement env pool id none (some p) =
    ask_one env pool (lit "UPDATE groups SET parent_group_id = $1 WHERE id = $2 RETURNING *")
      (nullable p ∷ text id ∷ [])
statement env pool id none none =
    raise (error (lit "groups.update: at least one of name / parent_group_id must be provided"))

by_fields :
    (env : Env) (pool : PoolId) (id : Text) (name : Option Text) (parent : Option (Option Text))
    → update env pool id (record { name = name; parent_group_id = parent })
      ≡ statement env pool id name parent
unfolding update build set_name set_parent set_column send_update decimal lit
by_fields env pool id (some n) (some p) = refl
by_fields env pool id (some n) none = refl
by_fields env pool id none (some p) = refl
by_fields env pool id none none = refl

-- For every patch, `groups.update` sends the statement that sets exactly the fields that are present,
-- with each placeholder at the place of its parameter, or throws where no field is present.
pub update-statement :
    (env : Env) (pool : PoolId) (id : Text) (patch : Patch)
    → update env pool id patch ≡ statement env pool id patch.name patch.parent_group_id
update-statement env pool id patch = by_fields env pool id patch.name patch.parent_group_id
