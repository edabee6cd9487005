-- ===== src/Core/Config/Settings.antt =====
-- core/config/env.validation.ts, `Env`: the settings, in the order of the schema.
use ai_search_api.Base.{ℕ, Bool, Option}
use ai_search_api.Base.Text.{Text}

pub record Env : Type 0 where
  pub node_env : Text
  pub port : ℕ
  pub log_level : Text
  pub database_url : Text
  pub jwt_access_secret : Text
  pub jwt_access_ttl_seconds : ℕ
  pub refresh_token_ttl_days : ℕ
  pub cors_origins : Option Text
  pub geo_allow_private_urls : Option Text
  pub trust_proxy : Option Text
  pub login_max_attempts : ℕ
  pub login_lock_minutes : ℕ
  pub request_timeout_ms : ℕ
  pub body_limit : Text
  pub max_upload_bytes : ℕ
  pub otel_enabled : Bool
  pub otel_service_name : Text
  pub otel_exporter_otlp_endpoint : Option Text
  pub otel_console : Bool
  pub sentry_dsn : Option Text
  pub google_client_id : Option Text
  pub google_client_secret : Option Text
  pub google_callback_url : Option Text
  pub google_post_login_redirect : Option Text
  pub storage_endpoint : Option Text
  pub storage_region : Text
  pub storage_bucket : Option Text
  pub storage_access_key_id : Option Text
  pub storage_secret_access_key : Option Text
  pub storage_force_path_style : Bool

-- The object of all fields.
abbrev pub new_env :
    Text
    → ℕ
    → Text
    → Text
    → Text
    → ℕ
    → ℕ
    → Option Text
    → Option Text
    → Option Text
    → ℕ
    → ℕ
    → ℕ
    → Text
    → ℕ
    → Bool
    → Text
    → Option Text
    → Bool
    → Option Text
    → Option Text
    → Option Text
    → Option Text
    → Option Text
    → Option Text
    → Text
    → Option Text
    → Option Text
    → Option Text
    → Bool
    → Env
new_env node_env port log_level database_url jwt_access_secret jwt_access_ttl_seconds
      refresh_token_ttl_days cors_origins geo_allow_private_urls trust_proxy login_max_attempts
      login_lock_minutes request_timeout_ms body_limit max_upload_bytes otel_enabled
      otel_service_name otel_exporter_otlp_endpoint otel_console sentry_dsn google_client_id
      google_client_secret google_callback_url google_post_login_redirect storage_endpoint
      storage_region storage_bucket storage_access_key_id storage_secret_access_key
      storage_force_path_style =
    record {
      node_env = node_env;
      port = port;
      log_level = log_level;
      database_url = database_url;
      jwt_access_secret = jwt_access_secret;
      jwt_access_ttl_seconds = jwt_access_ttl_seconds;
      refresh_token_ttl_days = refresh_token_ttl_days;
      cors_origins = cors_origins;
      geo_allow_private_urls = geo_allow_private_urls;
      trust_proxy = trust_proxy;
      login_max_attempts = login_max_attempts;
      login_lock_minutes = login_lock_minutes;
      request_timeout_ms = request_timeout_ms;
      body_limit = body_limit;
      max_upload_bytes = max_upload_bytes;
      otel_enabled = otel_enabled;
      otel_service_name = otel_service_name;
      otel_exporter_otlp_endpoint = otel_exporter_otlp_endpoint;
      otel_console = otel_console;
      sentry_dsn = sentry_dsn;
      google_client_id = google_client_id;
      google_client_secret = google_client_secret;
      google_callback_url = google_callback_url;
      google_post_login_redirect = google_post_login_redirect;
      storage_endpoint = storage_endpoint;
      storage_region = storage_region;
      storage_bucket = storage_bucket;
      storage_access_key_id = storage_access_key_id;
      storage_secret_access_key = storage_secret_access_key;
      storage_force_path_style = storage_force_path_style;
    }
