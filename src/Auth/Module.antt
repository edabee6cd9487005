-- ===== src/Auth/Module.antt =====
-- modules/auth/auth.module.ts and the constructors of the strategies: what the environment makes of
-- the services of modules/auth. @nestjs/jwt and passport-jwt are a parameter.
pub mod Lifetime
use ai_search_api.Base.{ℕ, String, Bool, false, Option, none, some, List, [], ◌∷◌, if◌then◌else◌}
use ai_search_api.Base.Text.{Text, codes}
use ai_search_api.Base.Prisma.{Client}
use ai_search_api.Core.Config.{Env}
use ai_search_api.Auth.State.{JwtPayload, Crypto, Config, Platform}
use ai_search_api.Auth.Google.{is_google_configured}

-- The options of JwtModule.
pub record JwtOptions : Type 0 where
  pub secret : Text
  pub expires_in : ℕ

abbrev pub jwt_options : Env → JwtOptions
jwt_options env = record { secret = env.jwt_access_secret; expires_in = env.jwt_access_ttl_seconds }

-- The options that JwtStrategy gives to passport-jwt; the token is the bearer token.
pub record JwtStrategyOptions : Type 0 where
  pub ignore_expiration : Bool
  pub secret_or_key : Text
  pub algorithms : List Text

abbrev pub jwt_strategy : Env → JwtStrategyOptions
jwt_strategy env = record {
  ignore_expiration = false;
  secret_or_key = env.jwt_access_secret;
  algorithms = codes "HS256" ∷ [];
}

-- The options that GoogleStrategy gives to passport-google-oauth20.
pub record GoogleOptions : Type 0 where
  pub client_id : Option Text
  pub client_secret : Option Text
  pub callback_url : Option Text
  pub scope : List Text

abbrev pub google_options : Env → GoogleOptions
google_options env = record {
  client_id = env.google_client_id;
  client_secret = env.google_client_secret;
  callback_url = env.google_callback_url;
  scope = codes "email" ∷ codes "profile" ∷ [];
}

-- The factory of the provider.
abbrev pub google_strategy : Env → Option GoogleOptions
google_strategy env = if is_google_configured env then some (google_options env) else none

-- `signAsync` at a time, and the claims of an `Authorization` header at a time.
pub record Jwt : Type 0 where
  pub sign : JwtOptions → ℕ → JwtPayload → String
  pub verify : JwtStrategyOptions → ℕ → Option Text → Option JwtPayload

-- What the services read of the environment.
abbrev pub config_of : Env → Config
config_of env = record {
  jwt_access_ttl_seconds = env.jwt_access_ttl_seconds;
  refresh_token_ttl_days = env.refresh_token_ttl_days;
  login_max_attempts = env.login_max_attempts;
  login_lock_minutes = env.login_lock_minutes;
}

abbrev pub platform_of : Client → Crypto → Jwt → Env → ℕ → Platform
platform_of db crypto jwt env now = record {
  db = db;
  crypto = record crypto { sign = jwt.sign (jwt_options env) now };
  config = config_of env;
}
