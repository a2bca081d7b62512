-- ===== src/Db/Users.antt =====
-- packages/db/src/index.ts: `users`.
use monok8s.Prelude.{Option, List, [], ◌∷◌, Text, lit, head?}
use monok8s.Services.{User, PoolId, text, Env}
use monok8s.Services.Exec.{Exec, pure, ◌>>=◌}
use monok8s.Db.Ask.{ask, inserted}

module _ (env : Env) (pool : PoolId) where
  unfoldable pub find_by_id : Text → Exec (Option User)
  find_by_id id = do
    rows ← ask env.on_query_users pool (lit "SELECT * FROM users WHERE id = $1") (text id ∷ [])
    pure (head? rows)

  unfoldable pub find_by_zitadel_id : Text → Exec (Option User)
  find_by_zitadel_id zitadel_id = do
    rows ←
        ask env.on_query_users pool (lit "SELECT * FROM users WHERE zitadel_id = $1")
          (text zitadel_id ∷ [])
    pure (head? rows)

  unfoldable pub find_by_tenant : Text → Exec (List User)
  find_by_tenant tenant_id =
      ask env.on_query_users pool
        (lit "SELECT * FROM users WHERE tenant_id = $1 ORDER BY created_at") (text tenant_id ∷ [])

  unfoldable pub create : Text → Text → Text → Exec User
  create tenant_id zitadel_id email = do
    rows ←
        ask env.on_query_users pool
          (lit "INSERT INTO users (tenant_id, zitadel_id, email) VALUES ($1, $2, $3) RETURNING *")
          (text tenant_id ∷ text zitadel_id ∷ text email ∷ [])
    inserted "users.create: insert returned no row" (head? rows)
