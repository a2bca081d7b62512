-- ===== src/Api/Config/Parsing.antt =====
-- What a load of the configuration accepts, and what it makes of it.
use monok8s.Prelude.{
  ◌≡◌, refl, sym, ap, ◌∙◌, ◌≢◌, Option-cases, ◌⊎◌, inl, inr, none, some, Text, lit, ◌==◌, ==_iff,
  or_else, arith,
}
use monok8s.Services.{Result, ok, throw}
use monok8s.Api.Config.{
  Cloud, Environment, AppConfig, ProcessEnv, cloud_name, environment_name, as_cloud, as_environment,
  parse_cookie_secure, parse_cloud, parse_environment, packed, load_config,
}

as_cloud-name : (value : Text) (c : Cloud) → as_cloud value ≡ some c → cloud_name c ≡ value
as_cloud-name value c e = grind (
  arith,
  ==_iff value (lit "gcp"),
  ==_iff value (lit "aws"),
  ==_iff value (lit "azure"),
  ==_iff value (lit "bare-metal"),
)

as_environment-name :
    (value : Text) (c : Environment) → as_environment value ≡ some c → environment_name c ≡ value
as_environment-name value c e = grind (
  arith,
  ==_iff value (lit "development"),
  ==_iff value (lit "staging"),
  ==_iff value (lit "production"),
)

as_cloud_name : (c : Cloud) → as_cloud (cloud_name c) ≡ some c
unfolding lit ◌==◌
as_cloud_name Cloud.gcp = refl
as_cloud_name Cloud.aws = refl
as_cloud_name Cloud.azure = refl
as_cloud_name Cloud.bare_metal = refl

as_cloud-none : (value : Text) → as_cloud value ≡ none → (c : Cloud) → cloud_name c ≢ value
as_cloud-none value e c n = grind (arith, sym (as_cloud_name c) ∙ (ap as_cloud n ∙ e))

as_environment_name : (c : Environment) → as_environment (environment_name c) ≡ some c
unfolding lit ◌==◌
as_environment_name Environment.development = refl
as_environment_name Environment.staging = refl
as_environment_name Environment.production = refl

as_environment-none :
    (value : Text) → as_environment value ≡ none → (c : Environment) → environment_name c ≢ value
as_environment-none value e c n =
    grind (arith, sym (as_environment_name c) ∙ (ap as_environment n ∙ e))

-- What a load makes of the cloud and environment that were asked for, given what it returns.
abbrev pub Reads : Text → Text → ProcessEnv → Result AppConfig → Type 0
Reads cloud environment env (ok config) =
    (cloud_name config.cloud ≡ cloud)
    × ((environment_name config.environment ≡ environment)
        × (config.cookie_secure ≡ parse_cookie_secure env.monok8s_cookie_secure config.environment))
Reads cloud environment env (throw e) =
    ((c : Cloud) → cloud_name c ≢ cloud) ⊎ ((c : Environment) → environment_name c ≢ environment)

cloud_Reads :
    (stringify : Text → Text) (env : ProcessEnv) (environment : Environment) (wanted : Text)
    → environment_name environment ≡ wanted
    → Reads
        (or_else env.monok8s_cloud (lit "bare-metal"))
        wanted
        env
        (packed stringify env environment (parse_cloud stringify env.monok8s_cloud))
unfolding parse_cloud
cloud_Reads stringify env environment wanted n =
    let value = or_else env.monok8s_cloud (lit "bare-metal") in
    elim (Option-cases (as_cloud value)) [
      | inl e ↦ rw e (inl (as_cloud-none value e))
      | inr (c, e) ↦ rw e (as_cloud-name value c e, (n, refl))
    ]

-- A load returns a configuration whose cloud and environment are the ones that the variables name,
-- "bare-metal" and "production" where they are unset; and it fails only where a variable's value is
-- the name of none.
pub load_config-Reads :
    (stringify : Text → Text) (env : ProcessEnv)
    → Reads
        (or_else env.monok8s_cloud (lit "bare-metal"))
        (or_else env.monok8s_environment (lit "production"))
        env
        (load_config stringify env)
unfolding load_config parse_environment
load_config-Reads stringify env =
    let value = or_else env.monok8s_environment (lit "production") in
    elim (Option-cases (as_environment value)) [
      | inl e ↦ rw e (inr (as_environment-none value e))
      | inr (c, e) ↦ rw e (cloud_Reads stringify env c value (as_environment-name value c e))
    ]
