-- ===== src/Deploy.antt =====
-- The deployment configuration: `EnvConfig`, `get_env_config` and `configure_env_vars` of
-- modal_common.py, and `_positive_int` of utils/config.py, which reads what they write. Counts and
-- seconds are natural numbers; Modal's secrets and volumes play no part in the checks.
pub mod Limits
pub mod Settings
pub mod Envfile
use Prim.Native.String
use modal_template_fastapi.Common.{
  ℕ, ◌+◌, ◌-◌, ◌*◌, String, Bool, true, false, not, ◌&&◌, ◌||◌, Option, none, some, List, [], ◌∷◌,
  leb, ltb, is_some, string_keys, ◌==◌, join, if◌then◌else◌,
}
use modal_template_fastapi.Common.Dict
use modal_template_fastapi.Common.Dict.{Dict}
use modal_template_fastapi.Common.Text.{
  Unicode, ℤ, pos, negsuc, int_of, strip, is_empty, map_text, ◌⧺◌,
}
use modal_template_fastapi.Domain.Exec.{Outcome, ok, raise}
use modal_template_fastapi.Api.Auth.{Environment}

pub record EnvConfig : Type 0 where
  pub env_name : String
  pub app_name : String
  pub app_version : String
  pub app_description : String
  pub server_prefix : String
  pub server_hard_timeout_seconds : ℕ
  pub min_containers : ℕ
  pub max_containers : Option ℕ
  pub max_concurrent_requests : ℕ
  pub max_streams : ℕ
  pub stream_timeout_margin_seconds : ℕ
  pub stream_heartbeat_seconds : ℕ
  pub cors_origins : List String
  pub telemetry_enabled : Bool
  pub otel_endpoint : Option String
  pub service_name : Option String
  pub metric_export_interval_seconds : ℕ

-- The checks of `__post_init__`; a failure is the ValueError's name for what is wrong.
pub data ConfigError : Type 0 where
  no_containers fewer_than_min streams_starve bad_interval bad_heartbeat bad_timeout : ConfigError

abbrev containers_ok : ℕ → Option ℕ → Outcome ConfigError (Unit {0})
containers_ok least none = ok tt
containers_ok least (some most) =
    if ltb most 1
    then raise no_containers
    else if ltb most least
    then raise fewer_than_min
    else ok tt

abbrev limits_ok : EnvConfig → Outcome ConfigError (Unit {0})
limits_ok c =
    if not (leb 1 c.max_streams && ltb c.max_streams c.max_concurrent_requests)
    then raise streams_starve
    else if not (leb 5 c.metric_export_interval_seconds && leb c.metric_export_interval_seconds 600)
    then raise bad_interval
    else if not (leb 1 c.stream_heartbeat_seconds && leb c.stream_heartbeat_seconds 30)
    then raise bad_heartbeat
    else if ltb c.server_hard_timeout_seconds (c.stream_timeout_margin_seconds + 10)
    then raise bad_timeout
    else ok tt

-- `__post_init__`
unfoldable pub post_init : EnvConfig → Outcome ConfigError (Unit {0})
post_init c = elim (containers_ok c.min_containers c.max_containers) [
  | ok _ ↦ limits_ok c
  | raise e ↦ raise e
]

-- The defaults of the dataclass, for an environment.
abbrev pub default_config : String → EnvConfig
default_config env_name = record {
  env_name = env_name;
  app_name = "modal-template-fastapi";
  app_version = "1.0.0";
  app_description = "A FastAPI template deployed on Modal with CRUD endpoints.";
  server_prefix = "/api/v1";
  server_hard_timeout_seconds = 150;
  min_containers = 0;
  max_containers = none;
  max_concurrent_requests = 5;
  max_streams = 3;
  stream_timeout_margin_seconds = 30;
  stream_heartbeat_seconds = 5;
  cors_origins = "*" ∷ [];
  telemetry_enabled = true;
  otel_endpoint = none;
  service_name = none;
  metric_export_interval_seconds = 60;
}

-- FEAT, DEV and PROD
unfoldable pub env_configs : Dict String EnvConfig
env_configs =
    ("feat", record (default_config "feat") { max_containers = some 3 })
    ∷ ("dev", record (default_config "dev") { telemetry_enabled = false; max_containers = some 3 })
    ∷ ("prod", record (default_config "prod") { max_containers = some 5 })
    ∷ []

-- `get_env_config`, with the ValueError's text
unfoldable pub get_env_config : Unicode → String → Outcome String EnvConfig
unfolding env_configs
get_env_config u env_name =
    let name = strip (map_text u.to_lower env_name) in
    elim (Dict.get name env_configs) [
      | some config ↦ ok config
      | none ↦ raise ("Invalid MODAL_ENV='" ⧺ (name ⧺ "'. Expected one of: feat, dev, prod"))
    ]

-- `os.environ.setdefault(key, value)`
abbrev pub setdefault : String → String → Environment → Environment
setdefault key value environ = if Dict.has key environ then environ else Dict.put key value environ

-- `a or b`
abbrev pub or_text : Option String → Option String → Option String
or_text none b = b
or_text (some a) b = if is_empty a then b else some a

abbrev name_or : Option String → String → String
name_or none b = b
name_or (some a) b = if is_empty a then b else a

abbrev set_endpoint : Option String → Environment → Environment
set_endpoint none environ = environ
set_endpoint (some endpoint) environ =
    if is_empty endpoint then environ else setdefault "OTEL_EXPORTER_OTLP_ENDPOINT" endpoint environ

-- `",".join(xs)`
abbrev comma_join : List String → String
comma_join [] = ""
comma_join (x ∷ []) = x
comma_join (x ∷ y ∷ ys) = x ⧺ ("," ⧺ comma_join (y ∷ ys))

-- `decimal` is `str` of a number
module _ (decimal : ℕ → String) where
  -- the last lines of `configure_env_vars`: the limits of the streams
  unfoldable pub set_limits : EnvConfig → Environment → Environment
  set_limits c environ =
      setdefault "STREAM_MAX_DURATION_SECONDS"
        (decimal (c.server_hard_timeout_seconds - c.stream_timeout_margin_seconds))
        (setdefault "OTEL_METRIC_EXPORT_INTERVAL_MS"
          (decimal (c.metric_export_interval_seconds * 1000))
          (setdefault "STREAM_HEARTBEAT_SECONDS" (decimal c.stream_heartbeat_seconds)
            (setdefault "STREAM_MAX_CONNECTIONS" (decimal c.max_streams) environ)))

  -- `configure_env_vars`
  unfoldable pub configure_env_vars : EnvConfig → Environment → Environment
  unfolding set_limits
  configure_env_vars c environ =
      let e1 =
        Dict.put "TELEMETRY_ENABLED" (if c.telemetry_enabled then "true" else "false") environ in
      let e2 =
        if c.telemetry_enabled
        then set_endpoint (or_text (Dict.get "GRAFANA_OTLP_ENDPOINT" e1) c.otel_endpoint) e1
        else e1 in
      let e3 = setdefault "OTEL_SERVICE_NAME" (name_or c.service_name c.app_name) e2 in
      let e4 = setdefault "MODAL_ENV" c.env_name e3 in
      let e5 = setdefault "APP_NAME" c.app_name e4 in
      let e6 = setdefault "APP_VERSION" c.app_version e5 in
      let e7 = setdefault "APP_DESCRIPTION" c.app_description e6 in
      let e8 = setdefault "SERVER_PREFIX" c.server_prefix e7 in
      set_limits c (setdefault "CORS_ORIGINS" (comma_join c.cors_origins) e8)

-- The RuntimeError of `_positive_int`.
pub data SettingError : Type 0 where
  not_an_integer too_small : String → SettingError

-- `_positive_int`
unfoldable pub positive_int : Unicode → Environment → String → ℕ → Outcome SettingError ℕ
positive_int u environ name default = elim (Dict.get name environ) [
  | none ↦ ok default
  | some raw ↦ if is_empty (strip raw) then ok default else elim (int_of u raw) [
    | none ↦ raise (not_an_integer name)
    | some (ℤ.negsuc n) ↦ raise (too_small name)
    | some (ℤ.pos n) ↦ if ltb n 1 then raise (too_small name) else ok n
  ]
]
