-- ===== src/Api/System.antt =====
-- apps/api/src/routers/system.ts: the cloud that the platform runs on, told without a session. The body is
-- the JSON value; its length is not modelled.
use monok8s.Prelude.{ℕ, Option, none, some, List, [], ◌∷◌, Text, lit, ◌==◌, if◌then◌else◌}
use monok8s.Api.Config.{Cloud, gcp, aws, azure, bare_metal, AppConfig, cloud_name, environment_name}

pub record CloudInfo : Type 0 where
  pub cloud : Text
  pub region : Text
  pub cloud_name : Text
  pub environment : Text

-- CLOUD_NAMES
abbrev pub display_name : Cloud → Text
display_name gcp = lit "Google Cloud"
display_name aws = lit "Amazon Web Services"
display_name azure = lit "Microsoft Azure"
display_name bare_metal = lit "Self-hosted"

unfoldable pub build_cloud_info : AppConfig → CloudInfo
build_cloud_info config = record {
  cloud = cloud_name config.cloud;
  region = config.region;
  cloud_name = display_name config.cloud;
  environment = environment_name config.environment;
}

pub record SystemResponse : Type 0 where
  pub status : ℕ
  pub headers : List (Text × Text)
  pub body : CloudInfo

-- None where the request is another's. An absent URL is none of these.
abbrev pub cloud_route : AppConfig → Text → Option SystemResponse
cloud_route config url =
    if url == lit "/api/v1/system/cloud"
    then some (record {
      status = 200;
      headers =
          (lit "Content-Type", lit "application/json")
          ∷ (lit "Cache-Control", lit "public, max-age=300")
          ∷ [];
      body = build_cloud_info config;
    })
    else none

unfoldable pub handle_system_route : AppConfig → Option Text → Option SystemResponse
handle_system_route config none = none
handle_system_route config (some url) = cloud_route config url
