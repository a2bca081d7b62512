-- ===== src/Api/Config.antt =====
-- apps/api/src/config.ts: the API's configuration, read once from the environment variables. An
-- unset variable is none. `JSON.stringify` of a text, which error messages use, is an argument.
pub mod Parsing
use monok8s.Prelude.{
  ℕ, ◌+◌, Bool, true, false, not, ◌&&◌, ◌||◌, Option, none, some, [], ◌∷◌, ◌++◌, Text, lit, ◌==◌,
  leb, map, or_else, if◌then◌else◌,
}
use monok8s.Services.{Result, ok, throw, error}

pub data Cloud : Type 0 where
  gcp aws azure bare_metal : Cloud

-- The environments of a deployment.
pub data Environment : Type 0 where
  development staging production : Environment

pub record AppConfig : Type 0 where
  pub cloud : Cloud
  pub region : Text
  pub environment : Environment
  pub alertmanager_url : Text
  pub nats_url : Text
  pub zitadel_issuer : Text
  pub zitadel_client_id : Text
  pub zitadel_redirect_uri : Text
  pub cookie_domain : Text
  pub cookie_secure : Bool

-- The variables of NodeJS.ProcessEnv that `loadConfig` reads.
pub record ProcessEnv : Type 0 where
  pub monok8s_cloud : Option Text
  pub monok8s_region : Option Text
  pub monok8s_environment : Option Text
  pub alertmanager_url : Option Text
  pub nats_url : Option Text
  pub zitadel_issuer : Option Text
  pub zitadel_client_id : Option Text
  pub zitadel_redirect_uri : Option Text
  pub monok8s_cookie_domain : Option Text
  pub monok8s_cookie_secure : Option Text

-- The members of the two sets, as the source spells them.
abbrev pub cloud_name : Cloud → Text
cloud_name gcp = lit "gcp"
cloud_name aws = lit "aws"
cloud_name azure = lit "azure"
cloud_name bare_metal = lit "bare-metal"

abbrev pub environment_name : Environment → Text
environment_name development = lit "development"
environment_name staging = lit "staging"
environment_name production = lit "production"

-- `VALID_CLOUDS.has` and the cast that follows it.
abbrev pub as_cloud : Text → Option Cloud
as_cloud value =
    if value == lit "gcp"
    then some gcp
    else if value == lit "aws"
    then some aws
    else if value == lit "azure"
    then some azure
    else if value == lit "bare-metal"
    then some bare_metal
    else none

abbrev pub as_environment : Text → Option Environment
as_environment value =
    if value == lit "development"
    then some development
    else if value == lit "staging"
    then some staging
    else if value == lit "production"
    then some production
    else none

-- `toLowerCase`, for the comparison with an ASCII word: no other character's lower case is a letter
-- of "true".
abbrev pub lower : ℕ → ℕ
lower c = if leb b'A' c && leb c b'Z' then c + 32 else c

abbrev pub parse_cookie_secure : Option Text → Environment → Bool
parse_cookie_secure none development = false
parse_cookie_secure none _ = true
parse_cookie_secure (some raw) _ = raw == lit "1" || map lower raw == lit "true"

module _ (stringify : Text → Text) where
  abbrev pub invalid_cloud : Text → Text
  invalid_cloud value =
      lit "MONOK8S_CLOUD: invalid value "
      ++ (stringify value ++ lit "; expected one of gcp / aws / azure / bare-metal")

  abbrev pub invalid_environment : Text → Text
  invalid_environment value =
      lit "MONOK8S_ENVIRONMENT: invalid value "
      ++ (stringify value ++ lit "; expected one of development / staging / production")

  abbrev pub or_invalid {ℓ} : {A : Type ℓ} → Option A → Text → Result A
  or_invalid none message = throw (error message)
  or_invalid (some a) message = ok a

  unfoldable pub parse_cloud : Option Text → Result Cloud
  parse_cloud raw =
      let value = or_else raw (lit "bare-metal") in
      or_invalid (as_cloud value) (invalid_cloud value)

  unfoldable pub parse_environment : Option Text → Result Environment
  parse_environment raw =
      let value = or_else raw (lit "production") in
      or_invalid (as_environment value) (invalid_environment value)

  -- The record of `loadConfig`, once its environment and then its cloud are read.
  abbrev pub packed : ProcessEnv → Environment → Result Cloud → Result AppConfig
  packed env environment (throw e) = throw e
  packed env environment (ok cloud) = ok (record {
    cloud = cloud;
    region = or_else env.monok8s_region (lit "unknown");
    environment = environment;
    alertmanager_url = or_else env.alertmanager_url [];
    nats_url = or_else env.nats_url (lit "nats://nats.nats.svc.cluster.local:4222");
    zitadel_issuer = or_else env.zitadel_issuer [];
    zitadel_client_id = or_else env.zitadel_client_id [];
    zitadel_redirect_uri = or_else env.zitadel_redirect_uri [];
    cookie_domain = or_else env.monok8s_cookie_domain [];
    cookie_secure = parse_cookie_secure env.monok8s_cookie_secure environment;
  })

  abbrev pub load_from : ProcessEnv → Result Environment → Result AppConfig
  load_from env (throw e) = throw e
  load_from env (ok environment) = packed env environment (parse_cloud env.monok8s_cloud)

  unfoldable pub load_config : ProcessEnv → Result AppConfig
  load_config env = load_from env (parse_environment env.monok8s_environment)

  -- A load that fails leaves the cache empty.
  abbrev pub keep : Result AppConfig → Result AppConfig × Option AppConfig
  keep (ok config) = (ok config, some config)
  keep (throw e) = (throw e, none)

  -- `getConfig`, on the cache and the environment of the moment.
  unfoldable pub get_config : ProcessEnv → Option AppConfig → Result AppConfig × Option AppConfig
  get_config env (some cached) = (ok cached, some cached)
  get_config env none = keep (load_config env)
