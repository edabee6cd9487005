-- ===== src/Core/Config/Sample.antt =====
-- A small environment for the tests of what reads it.
use ai_search_api.Base.{◌≡◌, refl, inr, true, false, ◌||◌, Option, none, some, [], if◌then◌else◌}
use ai_search_api.Base.Text.{Text, codes, text_eq}
use ai_search_api.Core.Config.{Checked, Zod, Env, production, parse_fields, validate_env}

abbrev accepting : {A : Type 0} → A → Checked A
accepting a = record { value = some a; messages = [] }

-- A zod that accepts every text, and reads every number as 7.
abbrev pub small_zod : Zod
small_zod = record {
  required = codes "Required";
  one_of = λ options t. accepting t;
  url = accepting;
  min_length = λ n t. accepting t;
  positive_int = λ t. accepting 7;
}

abbrev pub small_raw : Text → Option Text
small_raw name =
    if text_eq name (codes "NODE_ENV")
    then some production
    else if text_eq name (codes "DATABASE_URL") || text_eq name (codes "JWT_ACCESS_SECRET")
    then some (codes "postgres://db")
    else if text_eq name (codes "CORS_ORIGINS")
    then some (codes "https://a.test, https://b.test")
    else none

abbrev pub small_env : Env
small_env = record {
  node_env = production;
  port = 3000;
  log_level = codes "info";
  database_url = codes "postgres://db";
  jwt_access_secret = codes "postgres://db";
  jwt_access_ttl_seconds = 900;
  refresh_token_ttl_days = 30;
  cors_origins = some (codes "https://a.test, https://b.test");
  geo_allow_private_urls = none;
  trust_proxy = none;
  login_max_attempts = 5;
  login_lock_minutes = 15;
  request_timeout_ms = 30000;
  body_limit = codes "1mb";
  max_upload_bytes = 10485760;
  otel_enabled = false;
  otel_service_name = codes "saas-api";
  otel_exporter_otlp_endpoint = none;
  otel_console = false;
  sentry_dsn = none;
  google_client_id = none;
  google_client_secret = none;
  google_callback_url = none;
  google_post_login_redirect = none;
  storage_endpoint = none;
  storage_region = codes "auto";
  storage_bucket = none;
  storage_access_key_id = none;
  storage_secret_access_key = none;
  storage_force_path_style = true;
}

pub small_env_valid : validate_env small_zod small_raw ≡ inr small_env
unfolding validate_env parse_fields
small_env_valid = refl
