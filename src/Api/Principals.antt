-- ===== src/Api/Principals.antt =====
-- apps/api/src/handlers/principals.ts: tenants, users, groups and roles.
pub mod Roles
pub mod Groups
pub mod Suspension
use monok8s.Prelude.{Option, List, Text}
use monok8s.Services.{Env, PoolId, Tenant, User}
use monok8s.Services.Exec.{Exec}
use monok8s.Db.Tenants
use monok8s.Db.Users

module _ (env : Env) (db : PoolId) where
  abbrev pub list_tenants : Exec (List Tenant)
  list_tenants = Tenants.list env db

  abbrev pub get_tenant : Text → Exec (Option Tenant)
  get_tenant = Tenants.find_by_id env db

  abbrev pub list_users_in_tenant : Text → Exec (List User)
  list_users_in_tenant = Users.find_by_tenant env db

  abbrev pub get_user : Text → Exec (Option User)
  get_user = Users.find_by_id env db
