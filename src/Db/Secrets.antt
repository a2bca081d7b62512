-- ===== src/Db/Secrets.antt =====
-- packages/db/src/k8s.ts: the secret with a tenant's connection details, read through the Kubernetes API.
-- `fetch`, `encodeURIComponent`, the decoding of base64 and `Number.parseInt` are arguments.
use monok8s.Prelude.{
  ℕ, Bool, not, ◌||◌, Option, none, some, [], ◌++◌, Text, lit, is_blank, or_else, trim,
  if◌then◌else◌,
}
use monok8s.Prelude.Maps.{Map, get}
use monok8s.Services.{error, Result, ok, throw}
use monok8s.Services.Exec.{then_result}
use monok8s.Db.Ask.{decimal}

-- `data` may be absent; its values are base64.
pub record K8sSecret : Type 0 where
  pub fields : Option (Map Text)

-- A response: its status, whether that is a success, its text and its JSON.
pub record K8sResponse : Type 0 where
  pub status : ℕ
  pub is_ok : Bool
  pub body : Result Text
  pub json : Result K8sSecret

pub record K8sConfig : Type 0 where
  pub api_server : Text
  pub token : Text

pub record PoolConfig (Port : Type 0) : Type 0 where
  pub host : Text
  pub port : Port
  pub database : Text
  pub user : Text
  pub password : Text

abbrev pub secret_name_format : Text → Text
secret_name_format tenant_id = tenant_id ++ lit "-db1-app"

abbrev pub namespace_format : Text → Text
namespace_format tenant_id = lit "tenant-" ++ tenant_id

abbrev pub body_or_empty : Result Text → Text
body_or_empty (ok t) = t
body_or_empty (throw e) = []

module _ {Port : Type 0} (encode_uri_component : Text → Text) (from_base64 : Text → Text)
    (parse_int : Text → Port) where
  abbrev pub decoded : Option Text → Text → Text → Text → Result Text
  decoded none key ns name = throw (
      error (
        lit "k8s Secret "
        ++ (ns ++ (lit "/" ++ (name ++ (lit " missing key '" ++ (key ++ lit "'")))))))
  decoded (some v) key ns name = ok (from_base64 v)

  abbrev pub decode : Map Text → Text → Text → Text → Result Text
  decode fields key ns name = decoded (get key fields) key ns name

  -- The five fields, in the order in which they are read.
  abbrev pub pool_config : Map Text → Text → Text → Result (PoolConfig Port)
  pool_config fields ns name = then_result (decode fields (lit "host") ns name) (λ host.
      then_result (decode fields (lit "port") ns name) (λ port.
        then_result (decode fields (lit "dbname") ns name) (λ database.
          then_result (decode fields (lit "username") ns name) (λ user.
            then_result (decode fields (lit "password") ns name) (λ password. ok (record {
              host = host;
              port = parse_int port;
              database = database;
              user = user;
              password = password;
            }))))))

  abbrev pub config_of : Text → Text → Option (Map Text) → Result (PoolConfig Port)
  config_of ns name none =
      throw (error (lit "k8s Secret " ++ (ns ++ (lit "/" ++ (name ++ lit " has no data field")))))
  config_of ns name (some fields) = pool_config fields ns name

  abbrev pub secret_url : K8sConfig → Text → Text → Text
  secret_url cfg ns name =
      cfg.api_server
      ++ (lit "/api/v1/namespaces/"
          ++ (encode_uri_component ns ++ (lit "/secrets/" ++ encode_uri_component name)))

  abbrev pub answered : Text → Text → Text → K8sResponse → Result (PoolConfig Port)
  answered url ns name res =
      if not res.is_ok
      then throw (
          error (
            lit "k8s api GET "
            ++ (url
                ++ (lit " → " ++ (decimal res.status ++ (lit ": " ++ body_or_empty res.body))))))
      else then_result res.json (λ secret. config_of ns name secret.fields)

  -- `makeK8sSecretFetcher`: a GET of the URL, with the bearer token.
  unfoldable pub fetch_secret :
      (Text → Text → Result K8sResponse) → K8sConfig → Text → Result (PoolConfig Port)
  fetch_secret fetcher cfg tenant_id =
      let ns = namespace_format tenant_id in
      let name = secret_name_format tenant_id in
      let url = secret_url cfg ns name in
      then_result (fetcher url (lit "Bearer " ++ cfg.token)) (answered url ns name)

-- `defaultK8sConfig`, on the two variables and the content of the token's file.
unfoldable pub default_k8s_config : Option Text → Option Text → Result Text → Result K8sConfig
default_k8s_config host port file =
    if is_blank (or_else host []) || is_blank (or_else port [])
    then throw (
        error
          (lit "defaultK8sConfig: KUBERNETES_SERVICE_HOST/PORT not set — not running in-cluster?"))
    else then_result file (λ token. ok (record {
      api_server = lit "https://" ++ (or_else host [] ++ (lit ":" ++ or_else port []));
      token = trim token;
    }))
