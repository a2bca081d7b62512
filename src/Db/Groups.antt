-- ===== src/Db/Groups.antt =====
-- packages/db/src/index.ts: `groups`.
pub mod Statement
pub mod Quiet
use monok8s.Prelude.{
  ◌+◌, Option, none, some, List, [], ◌∷◌, ◌++◌, Text, lit, head?, length, is_empty, if◌then◌else◌,
}
use monok8s.Services.{Group, PoolId, Param, text, Env, error}
use monok8s.Services.Exec.{Exec, pure, raise, ◌>>=◌}
use monok8s.Db.Ask.{nullable, ask, inserted, decimal}

-- The input of `update`: an absent field stays as it is; `parent_group_id: null` is a value.
pub record Patch : Type 0 where
  pub name : Option Text
  pub parent_group_id : Option (Option Text)

-- The builder's two arrays, `sets` and `params`.
pub record Builder : Type 0 where
  pub sets : List Text
  pub params : List Param

-- `params.push(value); sets.push(`column = $${params.length}`)`
pub set_column : Builder → Text → Param → Builder
unfolding decimal
set_column b column value = record {
  sets = b.sets ++ (column ++ (lit " = $" ++ decimal (length b.params + 1))) ∷ [];
  params = b.params ++ value ∷ [];
}

set_name : Option Text → Builder → Builder
unfolding set_column
set_name none b = b
set_name (some name) b = set_column b (lit "name") (text name)

set_parent : Option (Option Text) → Builder → Builder
unfolding set_column
set_parent none b = b
set_parent (some parent) b = set_column b (lit "parent_group_id") (nullable parent)

unfoldable pub build : Patch → Builder
unfolding set_name set_parent
build input =
    set_parent input.parent_group_id (set_name input.name (record { sets = []; params = [] }))

-- `sets.join(", ")`
abbrev pub join : Text → List Text → Text
join separator [] = []
join separator (x ∷ []) = x
join separator (x ∷ y ∷ xs) = x ++ (separator ++ join separator (y ∷ xs))

module _ (env : Env) (pool : PoolId) where
  unfoldable pub list : Text → Exec (List Group)
  list tenant_id =
      ask env.on_query_groups pool
        (lit "SELECT * FROM groups WHERE tenant_id = $1 ORDER BY created_at") (text tenant_id ∷ [])

  unfoldable pub find_by_id : Text → Exec (Option Group)
  find_by_id id = do
    rows ← ask env.on_query_groups pool (lit "SELECT * FROM groups WHERE id = $1") (text id ∷ [])
    pure (head? rows)

  unfoldable pub create : Text → Text → Option Text → Exec Group
  create tenant_id name parent_group_id = do
    rows ←
        ask env.on_query_groups pool
          (lit
            "INSERT INTO groups (tenant_id, name, parent_group_id) VALUES ($1, $2, $3) RETURNING *")
          (text tenant_id ∷ text name ∷ nullable parent_group_id ∷ [])
    inserted "groups.create: insert returned no row" (head? rows)

  send_update : Text → Builder → Exec (Option Group)
  unfolding decimal
  send_update id b = do
    rows ←
        ask env.on_query_groups pool
          (lit "UPDATE groups SET "
            ++ (join (lit ", ") b.sets
                ++ (lit " WHERE id = $" ++ (decimal (length b.params + 1) ++ lit " RETURNING *"))))
          (b.params ++ text id ∷ [])
    pure (head? rows)

  unfoldable pub update : Text → Patch → Exec (Option Group)
  unfolding build send_update
  update id input =
      if is_empty (build input).sets
      then raise
          (error (lit "groups.update: at least one of name / parent_group_id must be provided"))
      else send_update id (build input)

  -- The deleted row's `id`.
  unfoldable pub delete : Text → Exec (Option Text)
  delete id = do
    rows ←
        ask env.on_query_ids pool (lit "DELETE FROM groups WHERE id = $1 RETURNING id")
          (text id ∷ [])
    pure (head? rows)
