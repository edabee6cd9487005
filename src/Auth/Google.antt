-- ===== src/Auth/Google.antt =====
-- modules/auth/strategies/google.strategy.ts, google-auth.guard.ts and the provider of
-- auth.module.ts.
use ai_search_api.Base.{
  String, Bool, true, false, ◌&&◌, ◌||◌, Option, none, some, List, [], ◌∷◌, if◌then◌else◌,
}
use ai_search_api.Base.Result.{Thrown, http, Result, ok, err}
use ai_search_api.Base.Text.{Text}
use ai_search_api.Core.Config.{Env}
use ai_search_api.Auth.Service.Google.{GoogleAuthUser}

-- What the strategy reads of Google's profile.
pub record ProfileEmail : Type 0 where
  pub value : Text
  pub verified : Option Bool

pub record GoogleProfile : Type 0 where
  pub id : String
  pub display_name : Option Text
  pub emails : Option (List ProfileEmail)
  pub email_verified : Option Bool

-- `x === true`
abbrev pub is_true : Option Bool → Bool
is_true none = false
is_true (some b) = b

-- `profile.emails?.[0]`
abbrev pub first_email : Option (List ProfileEmail) → Option ProfileEmail
first_email none = none
first_email (some []) = none
first_email (some (e ∷ es)) = some e

abbrev pub not_verified : Thrown
not_verified = http 401 "Google account could not be verified"

abbrev pub google_user : GoogleProfile → Text → GoogleAuthUser
google_user profile email = record {
  email = email;
  google_id = profile.id;
  display_name = profile.display_name;
}

abbrev pub accept_email : GoogleProfile → ProfileEmail → Bool → Result GoogleAuthUser
accept_email profile email verified = elim email.value [
  | [] ↦ err not_verified
  | c ∷ s ↦ if verified then ok (google_user profile (c ∷ s)) else err not_verified
]

-- `validate`, by what it gives to `done`
unfoldable pub validate_google : GoogleProfile → Result GoogleAuthUser
validate_google profile = elim (first_email profile.emails) [
  | none ↦ err not_verified
  | some email ↦
      accept_email profile email (is_true email.verified || is_true profile.email_verified)
]

-- `handleRequest` of GoogleAuthGuard: a failure leaves the request without a user.
abbrev pub google_guard : Result GoogleAuthUser → Option GoogleAuthUser
google_guard (err e) = none
google_guard (ok user) = some user

-- `a && b && c`, on texts
abbrev is_set : Option Text → Bool
is_set none = false
is_set (some []) = false
is_set (some (c ∷ s)) = true

-- Whether the strategy is built.
abbrev pub is_google_configured : Env → Bool
is_google_configured env =
    is_set env.google_client_id && is_set env.google_client_secret && is_set env.google_callback_url
