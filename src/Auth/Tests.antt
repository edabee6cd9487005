-- ===== src/Auth/Tests.antt =====
-- The theorems on the refresh tokens of modules/auth at concrete inputs.
mod Histories
mod Accounts
use ai_search_api.Base.{
  ℕ, ◌+◌, ◌-◌, ◌*◌, ◌<◌, String, ◌≡◌, refl, true, none, some, List, [], ◌∷◌, arith, str_eq,
  if◌then◌else◌, length, first, count,
}
use ai_search_api.Base.Result.{ok, err}
use ai_search_api.Base.Text.{Text, codes}
use ai_search_api.Base.Prisma.{list_client}
use ai_search_api.Users.{find_by_email, has_email}
use ai_search_api.Auth.Service.{
  is_locked, lock_of, if_not_deleted, normalise_email, login, password_method, account_locked,
}
use ai_search_api.Auth.Login.{login-verified}
use ai_search_api.Auth.Lockout.Failures.{Attempt, attempt_login, logins}
use ai_search_api.Auth.Lockout.{logins-lock}
use ai_search_api.Auth.State.{Tenant, User, RefreshToken, State, AuthTokens, Request, Platform}
use ai_search_api.Auth.Tokens.{
  invalid_refresh_token, belongs_unrevoked, as_revoked, create_refresh_token, issue, owner_of,
  claim_token, rotate_row, rotate,
}
use ai_search_api.Auth.Tokens.Rotation.{
  new_token, Rotated, rotate-Rotated, rotate-lost, rotate-reuse,
}

abbrev small_platform : Platform
small_platform = record {
  db = list_client;
  crypto = record {
    hash_token = λ t. t;
    sign = λ _. "jwt";
    hash = λ x. x;
    verify = λ h x. some (str_eq h x);
  };
  config = record {
    jwt_access_ttl_seconds = 900;
    refresh_token_ttl_days = 30;
    login_max_attempts = 5;
    login_lock_minutes = 15;
  };
}

abbrev acme : Tenant
acme = record { id = "t1"; deleted_at = none }

abbrev ann : User
ann = record {
  id = "u1";
  tenant_id = "t1";
  email = codes "ann@acme.test";
  display_name = none;
  failed_login_attempts = 0;
  locked_until = none;
  created_at = 0;
  deleted_at = none;
}

abbrev row : RefreshToken
row = record { id = "r1"; user_id = "u1"; token_hash = "old"; expires_at = 1000; revoked_at = none }

abbrev before : State
before = record {
  tenants = acme ∷ [];
  users = ann ∷ [];
  login_methods = [];
  refresh_tokens = row ∷ [];
  audit_log = [];
  dummy_hash = none;
  verified = [];
}

abbrev request_at : ℕ → String → Request
request_at now token = record {
  now = now;
  random_token = token;
  random_password = "x";
  token_id = token;
  user_id = "u2";
  tenant_id = "t2";
  audit_succeeds = true;
}

abbrev first_request : Request
first_request = request_at 10 "new"

abbrev second_request : Request
second_request = request_at 20 "newer"

abbrev pair : AuthTokens
pair = record {
  access_token = "jwt";
  refresh_token = "new";
  token_type = "Bearer";
  expires_in = 900;
}

abbrev rotated : State
rotated = record before {
  refresh_tokens = as_revoked 10 row ∷ new_token small_platform first_request "u1" ∷ [];
}

rotates : rotate small_platform first_request (λ x. x) "old" before ≡ (ok pair, rotated)
unfolding rotate rotate_row claim_token issue create_refresh_token owner_of
rotates = refl

rotate-Rotated_example : Rotated small_platform first_request (λ x. x) "old" before pair rotated
rotate-Rotated_example =
    rotate-Rotated small_platform first_request (λ x. x) "old" before pair rotated rotates

owned_row : owner_of small_platform row before ≡ some (ann, acme)
unfolding owner_of
owned_row = refl

abbrev logged_out_elsewhere : State → State
logged_out_elsewhere s = record s { refresh_tokens = as_revoked 15 row ∷ [] }

rotate-lost_example :
    rotate small_platform first_request logged_out_elsewhere "old" before
    ≡ (err invalid_refresh_token, logged_out_elsewhere before)
rotate-lost_example =
    rotate-lost small_platform first_request logged_out_elsewhere "old" before row ann acme refl
      (omega arith) refl owned_row refl refl

rotate-reuse_example :
    ((rotate small_platform second_request (λ x. x) "old" rotated).0 ≡ err invalid_refresh_token)
    × (count
          (belongs_unrevoked "u1")
          (rotate small_platform second_request (λ x. x) "old" rotated).1.refresh_tokens
        ≡ 0)
rotate-reuse_example =
    rotate-reuse small_platform first_request second_request (λ x. x) "old" before rotated pair row
      rotates refl (omega arith)

new_owned :
    owner_of small_platform (new_token small_platform first_request "u1") before ≡ some (ann, acme)
unfolding owner_of
new_owned = refl

login-verified_example :
    length (login small_platform first_request (codes " Ann@acme.test ") "guess" before).1.verified
    ≡ (if is_locked 10 (
          lock_of small_platform (
            if_not_deleted
              (find_by_email small_platform (normalise_email (codes " Ann@acme.test ")) before)))
        then 0
        else 1)
      + 0
login-verified_example =
    login-verified small_platform first_request (codes " Ann@acme.test ") "guess" before

abbrev with_password : State
with_password = record before { login_methods = password_method "u1" "secret" ∷ [] }

abbrev guess_at : ℕ → Attempt small_platform
guess_at now = record {
  request = request_at now "a";
  email = codes "ann@acme.test";
  password = "guess";
}

abbrev four_guesses : List (Attempt small_platform)
four_guesses = guess_at 1 ∷ guess_at 2 ∷ guess_at 3 ∷ guess_at 4 ∷ []

abbrev last_guess : Attempt small_platform
last_guess = record (guess_at 10) { email = codes " Ann@acme.test" }

logins-lock_example :
    (first
        (has_email (codes "ann@acme.test"))
        (logins small_platform four_guesses with_password).users
      ≡ some (record ann { failed_login_attempts = 4 }))
    × (first
          (has_email (codes "ann@acme.test"))
          (attempt_login small_platform last_guess
            (logins small_platform four_guesses with_password)).users
        ≡ some (record ann { failed_login_attempts = 0; locked_until = some (10 + 15 * 60000) }))
    × ((req : Request) (raw : Text) (plain : String)
        → normalise_email raw ≡ codes "ann@acme.test"
        → req.now < 10 + 15 * 60000
        → (login small_platform req raw plain (
            attempt_login small_platform last_guess
              (logins small_platform four_guesses with_password))).0
          ≡ err account_locked)
unfolding normalise_email
logins-lock_example =
    logins-lock small_platform (codes "ann@acme.test") (password_method "u1" "secret" ∷ [])
      four_guesses last_guess ann with_password refl (refl, refl, refl)
      ((refl, refl, refl), ((refl, refl, refl), ((refl, refl, refl), ((refl, refl, refl), tt))))
      (refl, refl, refl) refl
