-- ===== src/Auth/Service.antt =====
-- modules/auth/auth.service.ts. A database call that fails ends the request and is not modelled,
-- and a request runs here without others between its steps. Google has the sign-in with Google.
pub mod Google
use ai_search_api.Base.{
  ℕ, ◌+◌, ◌*◌, String, Bool, true, false, not, ◌&&◌, ◌||◌, Option, none, some, str_eq, ltb, leb,
  if◌then◌else◌,
}
use ai_search_api.Base.Result.{Thrown, http, Result, ok, err}
use ai_search_api.Base.Text.{Text, trim, to_lower_case}
use ai_search_api.Core.AuditLog.{entry_of, on_user, by_method}
use ai_search_api.Auth.State.{
  AuthProvider, password, google, Tenant, User, LoginMethod, State, AuthTokens, Request, Platform,
  is_null, audited,
}
use ai_search_api.Auth.Passwords.{verify, verify_dummy}
use ai_search_api.Auth.Tokens.{issue, subject_of, rotate, revoke}
use ai_search_api.Users.{find_by_email, create_user_with_tenant, has_user_id}

-- core/common/utils/normalise-email.ts
unfoldable pub normalise_email : Text → Text
unfolding trim to_lower_case
normalise_email email = to_lower_case (trim email)

abbrev pub is_google : AuthProvider → Bool
is_google google = true
is_google password = false

abbrev pub is_password_of : String → LoginMethod → Bool
is_password_of user_id m = str_eq m.user_id user_id && not (is_google m.provider)

abbrev pub account_exists : Thrown
account_exists = http 409 "An account with this email already exists"

abbrev pub invalid_credentials : Thrown
invalid_credentials = http 401 "Invalid email or password"

abbrev pub account_locked : Thrown
account_locked = http 429 "Account temporarily locked after too many failed attempts"

abbrev pub workspace_inactive : Thrown
workspace_inactive = http 401 "This workspace is no longer active"

-- `user?.lockedUntil && user.lockedUntil > new Date()`
abbrev pub is_locked : ℕ → Option ℕ → Bool
is_locked now none = false
is_locked now (some time) = ltb now time

-- `found && !found.deletedAt ? found : null`
abbrev pub if_not_deleted : Option User → Option User
if_not_deleted none = none
if_not_deleted (some u) = if is_null u.deleted_at then some u else none

abbrev pub cleared : User → User
cleared u = record u { failed_login_attempts = 0; locked_until = none }

abbrev pub one_more_failure : User → User
one_more_failure u = record u { failed_login_attempts = u.failed_login_attempts + 1 }

abbrev pub locked : ℕ → User → User
locked time u = record u { failed_login_attempts = 0; locked_until = some time }

abbrev pub password_method : String → String → LoginMethod
password_method user_id hashed = record {
  user_id = user_id;
  provider = password;
  provider_account_id = none;
  password_hash = some hashed;
}

module _ (p : Platform) where
  -- What follows the transaction that opened the account, or its failure.
  unfoldable pub settle_register :
      Request → String → State → Result (User × State) → Result AuthTokens × State
  unfolding issue
  settle_register req plain s (err e) = (err e, s)
  settle_register req plain s (ok (user, s1)) = issue p req (subject_of user) (
      audited p req (on_user user.id (entry_of "auth.register" user.tenant_id user.id)) (record s1 {
        login_methods =
            p.db.create (password_method user.id (p.crypto.hash plain)) s1.login_methods;
      }))

  -- `others` is what other requests do between the lookup and the transaction, while argon2 runs.
  unfoldable pub register :
      Request → (State → State) → Text → String → Option Text → State → Result AuthTokens × State
  unfolding find_by_email create_user_with_tenant settle_register normalise_email
  register req others raw_email plain display_name s =
      let email : Text = normalise_email raw_email in
      elim (find_by_email p email s) [
        | some _ ↦ (err account_exists, s)
        | none ↦
            settle_register req plain (others s)
              (create_user_with_tenant p req email display_name (others s))
      ]

  unfoldable pub tenant_active : String → State → Bool
  tenant_active tenant_id s =
      elim (p.db.find_first (λ (n : Tenant). str_eq n.id tenant_id) s.tenants) [
        | none ↦ false
        | some n ↦ is_null n.deleted_at
      ]

  -- The atomic increment, and the lock once the threshold is hit. The row is read back after the
  -- increment.
  unfoldable pub register_failed_login : Request → User → State → State
  register_failed_login req user s =
      let s1 : State = record s {
        users = (p.db.update_many (has_user_id user.id) one_more_failure s.users).0;
      } in
      elim (p.db.find_first (has_user_id user.id) s1.users) [
        | none ↦ s1
        | some u ↦
            if leb p.config.login_max_attempts u.failed_login_attempts
            then audited p req (on_user user.id (entry_of "auth.locked" user.tenant_id user.id))
                (record s1 {
                  users =
                      (p.db.update_many (has_user_id user.id)
                        (locked (req.now + p.config.login_lock_minutes * 60000)) s1.users).0;
                })
            else s1
      ]

  -- The password method of the account, and one argon2 verification in every case.
  unfoldable pub check_password : Request → Option User → String → State → Bool × State
  unfolding verify verify_dummy
  check_password req none plain s = verify_dummy p req plain s
  check_password req (some u) plain s =
      elim (p.db.find_first (is_password_of u.id) s.login_methods) [
        | none ↦ verify_dummy p req plain s
        | some m ↦ elim m.password_hash [
          | none ↦ verify_dummy p req plain s
          | some hashed ↦ verify p hashed plain s
        ]
      ]

  -- What follows a correct password.
  unfoldable pub complete_login : Request → User → State → Result AuthTokens × State
  unfolding tenant_active issue
  complete_login req u s =
      if tenant_active u.tenant_id s
      then issue p req (subject_of u) (
          audited p req (by_method "password" (entry_of "auth.login" u.tenant_id u.id)) (record s {
            users =
                if ltb 0 u.failed_login_attempts || not (is_null u.locked_until)
                then (p.db.update_many (has_user_id u.id) cleared s.users).0
                else s.users;
          }))
      else (err workspace_inactive, s)

  unfoldable pub settle_login : Request → Option User → Bool × State → Result AuthTokens × State
  unfolding complete_login register_failed_login
  settle_login req none (_, s) = (err invalid_credentials, s)
  settle_login req (some u) (true, s) = complete_login req u s
  settle_login req (some u) (false, s) = (err invalid_credentials, register_failed_login req u s)

  abbrev pub lock_of : Option User → Option ℕ
  lock_of none = none
  lock_of (some u) = u.locked_until

  unfoldable pub login : Request → Text → String → State → Result AuthTokens × State
  unfolding find_by_email check_password settle_login normalise_email
  login req raw_email plain s =
      let user : Option User = if_not_deleted (find_by_email p (normalise_email raw_email) s) in
      if is_locked req.now (lock_of user)
      then (err account_locked, s)
      else settle_login req user (check_password req user plain s)

  unfoldable pub refresh : Request → (State → State) → String → State → Result AuthTokens × State
  unfolding rotate
  refresh = rotate p

  unfoldable pub logout : Request → String → State → State
  unfolding revoke
  logout = revoke p
