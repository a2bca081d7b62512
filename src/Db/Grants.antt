-- ===== src/Db/Grants.antt =====
-- packages/db/src/index.ts: `temporary_grants`.
use monok8s.Prelude.{Option, List, [], ◌∷◌, Text, lit, head?}
use monok8s.Services.{TemporaryGrant, PoolId, text, Env}
use monok8s.Services.Exec.{Exec, pure, ◌>>=◌}
use monok8s.Db.Ask.{nullable, ask}

module _ (env : Env) (pool : PoolId) where
  unfoldable pub list : Text → Exec (List TemporaryGrant)
  list tenant_id =
      ask env.on_query_grants pool
        (lit "SELECT * FROM temporary_grants WHERE tenant_id = $1 ORDER BY created_at DESC")
        (text tenant_id ∷ [])

  unfoldable pub find_by_id : Text → Exec (Option TemporaryGrant)
  find_by_id id = do
    rows ←
        ask env.on_query_grants pool (lit "SELECT * FROM temporary_grants WHERE id = $1")
          (text id ∷ [])
    pure (head? rows)

  unfoldable pub update_reason : Text → Option Text → Exec (Option TemporaryGrant)
  update_reason id reason = do
    rows ←
        ask env.on_query_grants pool
          (lit "UPDATE temporary_grants SET reason = $1 WHERE id = $2 RETURNING *")
          (nullable reason ∷ text id ∷ [])
    pure (head? rows)
