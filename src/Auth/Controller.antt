-- ===== src/Auth/Controller.antt =====
-- modules/auth/auth.controller.ts. A body has passed the validation pipe.
pub mod Unverified
use ai_search_api.Base.{ℕ, ◌+◌, String, false, Option, none, some, List, [], ◌∷◌, ◌++◌}
use ai_search_api.Base.Result.{Result, ok, err}
use ai_search_api.Base.Text.{Text, codes}
use ai_search_api.Core.Interceptors.{Body, value, nothing}
use ai_search_api.Core.Pipeline.{Route}
use ai_search_api.Auth.State.{State, AuthTokens, Request, Platform}
use ai_search_api.Auth.Service.Google.{GoogleAuthUser, issue_session_for_google_user}
use ai_search_api.Auth.Service.{register, login, refresh, logout}
use ai_search_api.Auth.Google.{GoogleProfile, validate_google, google_guard}

pub record RegisterDto : Type 0 where
  pub email : Text
  pub password : String
  pub display_name : Option Text

pub record LoginDto : Type 0 where
  pub email : Text
  pub password : String

pub record RefreshTokenDto : Type 0 where
  pub refresh_token : String

pub data AuthCall : Type 0 where
  register_call : RegisterDto → AuthCall
  login_call : LoginDto → AuthCall
  refresh_call logout_call : RefreshTokenDto → AuthCall

abbrev pub route : AuthCall → Route
route (register_call dto) = record { status = 201; skip_envelope = false }
route (login_call dto) = record { status = 200; skip_envelope = false }
route (refresh_call dto) = record { status = 200; skip_envelope = false }
route (logout_call dto) = record { status = 204; skip_envelope = false }

abbrev pub tokens_body : Result AuthTokens → Result (Body AuthTokens)
tokens_body (err e) = err e
tokens_body (ok tokens) = ok (value tokens)

-- `URLSearchParams` and `String(n)`, as the redirect uses them.
pub record Urls : Type 0 where
  pub search_params : List (Text × Text) → Text
  pub show_number : ℕ → Text

abbrev pub fragment_of : Urls → AuthTokens → Text
fragment_of urls tokens = urls.search_params (
    (codes "accessToken", codes tokens.access_token)
    ∷ (codes "refreshToken", codes tokens.refresh_token)
    ∷ (codes "tokenType", codes tokens.token_type)
    ∷ (codes "expiresIn", urls.show_number tokens.expires_in)
    ∷ [])

abbrev pub failed_redirect : Text → Text
failed_redirect target = target ++ codes "#error=google_auth_failed"

abbrev pub redirect_of : Urls → Text → Result AuthTokens → Text
redirect_of urls target (err e) = failed_redirect target
redirect_of urls target (ok tokens) = target ++ codes "#" ++ fragment_of urls tokens

-- What a template makes of a setting that is not set.
abbrev pub shown : Option Text → Text
shown none = codes "undefined"
shown (some t) = t

module _ (p : Platform) (req : Request) where
  unfoldable pub handle_auth : AuthCall → State → Result (Body AuthTokens) × State
  unfolding register login refresh logout
  handle_auth (register_call dto) s =
      let (r, s') = register p req (λ x. x) dto.email dto.password dto.display_name s in
      (tokens_body r, s')
  handle_auth (login_call dto) s =
      let (r, s') = login p req dto.email dto.password s in (tokens_body r, s')
  handle_auth (refresh_call dto) s =
      let (r, s') = refresh p req (λ x. x) dto.refresh_token s in (tokens_body r, s')
  handle_auth (logout_call dto) s = (ok nothing, logout p req dto.refresh_token s)

  -- The redirect of `googleCallback`; the user is the one that the guard leaves.
  unfoldable pub google_callback : Urls → Option Text → Option GoogleAuthUser → State → Text × State
  unfolding issue_session_for_google_user
  google_callback urls post_login_redirect none s = (failed_redirect (shown post_login_redirect), s)
  google_callback urls post_login_redirect (some user) s =
      let (r, s') = issue_session_for_google_user p req user s in
      (redirect_of urls (shown post_login_redirect) r, s')

  -- The whole redirect flow, from the profile that Google returned.
  unfoldable pub sign_in_with_google : Urls → Option Text → GoogleProfile → State → Text × State
  unfolding google_callback validate_google
  sign_in_with_google urls post_login_redirect profile =
      google_callback urls post_login_redirect (google_guard (validate_google profile))
