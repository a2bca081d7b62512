-- ===== src/Cloud/Database.antt =====
-- packages/cloud-adapters/database/baremetal.ts: the adapter for CloudNativePG. The Kubernetes API server,
-- `encodeURIComponent` and the reading of bodies are arguments.
pub mod Instances
use monok8s.Prelude.{
  ℕ, Bool, true, false, not, ◌&&◌, Option, none, some, Text, lit, ◌++◌, leb, nat_eq, or_else,
  if◌then◌else◌,
}
use monok8s.Services.{Result, ok, throw, Thrown, error}
use monok8s.Db.Ask.{decimal}
use monok8s.Cloud.{Served, return, ◌>>=◌}

pub record DatabaseHandle : Type 0 where
  pub id : Text
  pub dsn : Text

pub record CnpgConfig : Type 0 where
  pub api_server : Text
  pub token : Text
  pub namespace : Text
  pub database : Option Text

-- The cluster that is created: its name and namespace, and the database that it starts with.
pub record CnpgCluster : Type 0 where
  pub name : Text
  pub namespace : Text
  pub instances : ℕ
  pub database : Text
  pub owner : Text

pub data Method : Type 0 where
  post get delete : Method

-- A `fetch`; its header `Authorization` carries the token.
pub record ApiCall : Type 0 where
  pub url : Text
  pub method : Method
  pub token : Text
  pub body : Option CnpgCluster

-- `fetch` rejects, or there is a status, what `text()` gives, the empty text where it fails, and what
-- `json()` gives, which nothing reads.
pub data Answer : Type 0 where
  rejected : Thrown → Answer
  answered : ℕ → Text → Result (Unit {0}) → Answer

abbrev pub method_name : Method → Text
method_name post = lit "POST"
method_name get = lit "GET"
method_name delete = lit "DELETE"

abbrev pub is_ok : ℕ → Bool
is_ok status = leb 200 status && leb status 299

-- `surface`
unfoldable pub surface : Method → Text → Answer → Result (Unit {0})
surface method target (rejected e) = throw e
surface method target (answered status text json) =
    if not (is_ok status)
    then throw (
        error (
          lit "k8s api "
          ++ (method_name method
              ++ (lit " " ++ (target ++ (lit " → " ++ (decimal status ++ (lit ": " ++ text))))))))
    else if nat_eq status 204
    then ok tt
    else json

abbrev pub clusters_url : CnpgConfig → Text
clusters_url cfg =
    cfg.api_server
    ++ (lit "/apis/postgresql.cnpg.io/v1/namespaces"
        ++ (lit "/" ++ (cfg.namespace ++ lit "/clusters")))

abbrev pub cluster_url : CnpgConfig → Text → Text
cluster_url cfg encoded = clusters_url cfg ++ (lit "/" ++ encoded)

abbrev pub database_of : CnpgConfig → Text
database_of cfg = or_else cfg.database (lit "app")

unfoldable pub build_handle : CnpgConfig → Text → DatabaseHandle
build_handle cfg name = record {
  id = cfg.namespace ++ (lit "/" ++ name);
  dsn =
      lit "postgres://app@"
      ++ (name
          ++ (lit "-rw."
              ++ (cfg.namespace
                  ++ (lit ".svc.cluster.local:5432/"
                      ++ (database_of cfg ++ lit "?sslmode=require")))));
}

abbrev pub cluster_of : CnpgConfig → Text → CnpgCluster
cluster_of cfg name = record {
  name = name;
  namespace = cfg.namespace;
  instances = 1;
  database = database_of cfg;
  owner = lit "app";
}

module _ {ℓ} {S : Type ℓ} (serve : ApiCall → S → Answer × S) (encode : Text → Text)
    (cfg : CnpgConfig) where
  abbrev pub call : Method → Text → Option CnpgCluster → Served S (Unit {0})
  call method target body s =
      let (a, s1) =
        serve (record { url = target; method = method; token = cfg.token; body = body }) s in
      (surface method target a, s1)

  -- The region is not used.
  unfoldable pub provision_instance : Text → Text → Served S DatabaseHandle
  provision_instance name region =
      call post (clusters_url cfg) (some (cluster_of cfg name)) >>= λ _.
      return (build_handle cfg name)

  unfoldable pub describe_instance : Text → Served S DatabaseHandle
  describe_instance name =
      call get (cluster_url cfg (encode name)) none >>= λ _. return (build_handle cfg name)

  unfoldable pub delete_instance : Text → Served S (Unit {0})
  delete_instance name = call delete (cluster_url cfg (encode name)) none
