-- ===== src/Auth/State.antt =====
-- The tables behind modules/auth and modules/users (prisma/schema.prisma), and what the services
-- are given: the Prisma client, cryptography, the configuration, and the clock, the random values
-- and the outcome of audit writes at one request. Times are milliseconds.
use ai_search_api.Base.{ℕ, String, Bool, true, false, Option, none, some, List}
use ai_search_api.Base.Prisma.{Client}
use ai_search_api.Base.Text.{Text}
use ai_search_api.Core.AuditLog.{AuditEntry, record_entry}

pub data AuthProvider : Type 0 where
  password google : AuthProvider

pub record Tenant : Type 0 where
  pub id : String
  pub deleted_at : Option ℕ

pub record User : Type 0 where
  pub id : String
  pub tenant_id : String
  pub email : Text
  pub display_name : Option Text
  pub failed_login_attempts : ℕ
  pub locked_until : Option ℕ
  pub created_at : ℕ
  pub deleted_at : Option ℕ

pub record LoginMethod : Type 0 where
  pub user_id : String
  pub provider : AuthProvider
  pub provider_account_id : Option String
  pub password_hash : Option String

pub record RefreshToken : Type 0 where
  pub id : String
  pub user_id : String
  pub token_hash : String
  pub expires_at : ℕ
  pub revoked_at : Option ℕ

-- `dummy_hash` is the field of PasswordService; `verified` lists the hashes that argon2 was asked
-- to verify a password against, the latest first.
pub record State : Type 0 where
  pub tenants : List Tenant
  pub users : List User
  pub login_methods : List LoginMethod
  pub refresh_tokens : List RefreshToken
  pub audit_log : List AuditEntry
  pub dummy_hash : Option String
  pub verified : List String

-- modules/auth/auth.types.ts
pub record JwtPayload : Type 0 where
  pub sub : String
  pub tenant_id : String
  pub email : Text

pub record AuthTokens : Type 0 where
  pub access_token : String
  pub refresh_token : String
  pub token_type : String
  pub expires_in : ℕ

-- `hash_token` is SHA-256 in hex, `sign` is JwtService, `hash` and `verify` are argon2, where
-- `none` is a hash that argon2 rejects.
pub record Crypto : Type 0 where
  pub hash_token : String → String
  pub sign : JwtPayload → String
  pub hash : String → String
  pub verify : String → String → Option Bool

pub record Config : Type 0 where
  pub jwt_access_ttl_seconds : ℕ
  pub refresh_token_ttl_days : ℕ
  pub login_max_attempts : ℕ
  pub login_lock_minutes : ℕ

pub record Request : Type 0 where
  pub now : ℕ
  pub random_token : String
  pub random_password : String
  pub token_id : String
  pub user_id : String
  pub tenant_id : String
  pub audit_succeeds : Bool

pub record Platform : Type 1 where
  pub db : Client
  pub crypto : Crypto
  pub config : Config

abbrev pub is_null : Option ℕ → Bool
is_null none = true
is_null (some _) = false

-- Appends to the audit log.
abbrev pub audited : Platform → Request → AuditEntry → State → State
audited p req entry s = record s {
  audit_log = record_entry p.db req.audit_succeeds entry s.audit_log;
}
