-- ===== src/Core/Telemetry.antt =====
-- src/otel.ts, src/sentry.ts and core/logger/logger.module.ts: what a process and a request leave
-- for the operators. OpenTelemetry and Sentry start from the raw environment, before it is
-- validated.
pub mod RequestId
use ai_search_api.Base.{
  ℕ, ◌+◌, ◌-◌, ◌/◌, String, Bool, true, false, Option, none, some, List, [], ◌∷◌, ◌++◌,
  if◌then◌else◌,
}
use ai_search_api.Base.Text.{Text, codes, text_eq}
use ai_search_api.Core.Config.{Env, equals_text}

pub data Exporter : Type 0 where
  otlp : Text → Exporter
  console : Exporter

pub record Sdk : Type 0 where
  pub service_name : Text
  pub trace_exporter : Option Exporter
  pub metrics_port : ℕ
  pub file_spans : Bool

pub record SentryOptions : Type 0 where
  pub dsn : Text
  pub environment : Text
  pub traces_sample_rate : ℕ
  pub skip_open_telemetry_setup : Bool

abbrev pub or_else : Option Text → Text → Text
or_else none d = d
or_else (some t) d = t

-- `endpoint` where it is not empty, and else the console where it is asked for.
abbrev pub exporter_of : Option Text → Option Text → Option Exporter
exporter_of (some (c ∷ s)) flag = some (otlp ((c ∷ s) ++ codes "/v1/traces"))
exporter_of none flag = if equals_text flag (codes "true") then some console else none
exporter_of (some []) flag = if equals_text flag (codes "true") then some console else none

unfoldable pub start_otel : (Text → Option Text) → Option Sdk
start_otel raw =
    if equals_text (raw (codes "OTEL_ENABLED")) (codes "true")
    then some (record {
      service_name = or_else (raw (codes "OTEL_SERVICE_NAME")) (codes "saas-api");
      trace_exporter =
          exporter_of (raw (codes "OTEL_EXPORTER_OTLP_ENDPOINT")) (raw (codes "OTEL_CONSOLE"));
      metrics_port = 9464;
      file_spans = false;
    })
    else none

abbrev sentry_for : Option Text → Text → Option SentryOptions
sentry_for none environment = none
sentry_for (some []) environment = none
sentry_for (some (c ∷ s)) environment = some (record {
  dsn = c ∷ s;
  environment = environment;
  traces_sample_rate = 0;
  skip_open_telemetry_setup = true;
})

unfoldable pub start_sentry : (Text → Option Text) → Option SentryOptions
start_sentry raw =
    sentry_for (raw (codes "SENTRY_DSN")) (or_else (raw (codes "NODE_ENV")) (codes "development"))

-- The `x-request-id` of Node's headers.
pub data Header : Type 0 where
  missing : Header
  single : Text → Header
  several : List Text → Header

abbrev pub given_id : Header → Option Text
given_id missing = none
given_id (single id) = some id
given_id (several []) = none
given_id (several (id ∷ ids)) = some id

-- `genReqId`: the id of the request, and the `x-request-id` of its response. The UUID is an
-- argument.
unfoldable pub gen_req_id : Text → Header → Text × Text
gen_req_id uuid header = let id = or_else (given_id header) uuid in (id, id)

-- `request.user` as the guard left it.
pub record LogUser : Type 0 where
  pub user_id : Option String
  pub tenant_id : Option String

abbrev pub custom_props : Option LogUser → LogUser
custom_props none = record { user_id = none; tenant_id = none }
custom_props (some user) = user

pub record PinoHttp : Type 0 where
  pub level : Text
  pub redact : List Text
  pub pretty : Bool

unfoldable pub pino_http : Env → PinoHttp
pino_http env = record {
  level = env.log_level;
  redact = codes "req.headers.authorization" ∷ codes "req.headers.cookie" ∷ [];
  pretty = text_eq env.node_env (codes "development");
}
