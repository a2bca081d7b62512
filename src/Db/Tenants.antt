-- ===== src/Db/Tenants.antt =====
-- packages/db/src/index.ts: `tenants`.
use monok8s.Prelude.{Option, List, [], ◌∷◌, Text, lit, head?}
use monok8s.Services.{Tenant, PoolId, text, Env}
use monok8s.Services.Exec.{Exec, pure, ◌>>=◌}
use monok8s.Db.Ask.{nullable, ask, inserted}

module _ (env : Env) (pool : PoolId) where
  unfoldable pub list : Exec (List Tenant)
  list = ask env.on_query_tenants pool (lit "SELECT * FROM tenants ORDER BY created_at") []

  unfoldable pub find_by_id : Text → Exec (Option Tenant)
  find_by_id id = do
    rows ← ask env.on_query_tenants pool (lit "SELECT * FROM tenants WHERE id = $1") (text id ∷ [])
    pure (head? rows)

  unfoldable pub find_by_slug : Text → Exec (Option Tenant)
  find_by_slug slug = do
    rows ←
        ask env.on_query_tenants pool (lit "SELECT * FROM tenants WHERE slug = $1") (text slug ∷ [])
    pure (head? rows)

  unfoldable pub create : Text → Option Text → Exec Tenant
  create slug plan = do
    rows ←
        ask env.on_query_tenants pool
          (lit "INSERT INTO tenants (slug, plan) VALUES ($1, COALESCE($2, 'starter')) RETURNING *")
          (text slug ∷ nullable plan ∷ [])
    inserted "tenants.create: insert returned no row" (head? rows)
