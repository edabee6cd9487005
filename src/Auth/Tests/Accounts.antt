-- ===== src/Auth/Tests/Accounts.antt =====
-- The theorems on accounts, the users routes and Google sign-in at concrete inputs.
use ai_search_api.Base.{
  ℕ, ◌≡◌, refl, ap, ◌≢◌, inr, true, false, ◌&&◌, ◌||◌, Option, none, some, [], ◌∷◌, ltb,
  if◌then◌else◌, first,
}
use ai_search_api.Base.Text.{Text, text_eq, codes}
use ai_search_api.Base.Keys.{on_some}
use ai_search_api.Base.Result.{ok, err}
use ai_search_api.Auth.Access.{AuthenticatedUser, authenticate, unauthorized}
use ai_search_api.Auth.Sample.{small_site, small_server, arrival_of}
use ai_search_api.Auth.Service.Google.{GoogleAuthUser}
use ai_search_api.Auth.Google.{GoogleProfile}
use ai_search_api.Auth.Controller.{tokens_body, Urls, failed_redirect, sign_in_with_google}
use ai_search_api.Auth.Controller.Unverified.{sign_in_with_google-unverified}
use ai_search_api.Core.Errors.{HttpRequest}
use ai_search_api.Core.Pipeline.{Route, answer}
use ai_search_api.Auth.Conflict.{status_of, register-conflict}
use ai_search_api.Auth.Deletion.{soft_delete-locks_out}
use ai_search_api.Auth.Accounts.{accounts_of, IsWellFormed}
use ai_search_api.Auth.Accounts.Histories.{
  serve_call, AccountCall, History, over, then_call, register_call, google_call, delete_call,
  serve_calls, serve_calls-IsWellFormed,
}
use ai_search_api.Auth.State.{User, State, JwtPayload, Platform}
use ai_search_api.Auth.Accepted.{bearer, signed_in_as, Accepted}
use ai_search_api.Base.Prisma.{list_client}
use ai_search_api.Core.Config.Sample.{small_env}
use ai_search_api.Auth.Module.{jwt_options, JwtStrategyOptions, jwt_strategy, Jwt}
use ai_search_api.Auth.Module.Lifetime.{seconds, IsTakenInTime, platform, login-lifetime}
use ai_search_api.Auth.Registration.{IsNew, claims_of, access_of, register-login}
use ai_search_api.Auth.Service.{
  invalid_credentials, password_method, login, register, settle_register, normalise_email,
}
use ai_search_api.Auth.Tokens.{rotate}
use ai_search_api.Auth.Tokens.Rotation.{presented_row}
use ai_search_api.Users.{
  has_email, find_by_email, new_user, create_user_with_tenant, get_active_by_id, soft_delete,
}
use ai_search_api.Users.Controller.{remove_call, handle_users, serve_users}
use ai_search_api.Users.Controller.Ownership.{
  own_account, LeavesOthers, returns_own, serve_users-own,
}
use ai_search_api.Auth.Tests.{small_platform, before, ann, row, pair, first_request, second_request}

abbrev ann_signed_in : AuthenticatedUser
ann_signed_in = record { user_id = "u1"; tenant_id = "t1"; email = codes "ann@acme.test" }

token_of_ann : authenticate small_server.verify_bearer (some (codes "t1")) ≡ ok ann_signed_in
unfolding authenticate
token_of_ann = refl

serve_users-own_example :
    LeavesOthers "u1" before
      (serve_users small_platform first_request small_server
        (arrival_of (codes "t1"))
        remove_call
        before).1
    × (returns_own "u1"
          (handle_users small_platform first_request remove_call ann_signed_in (some "t1") before).0
        ≡ true)
    × ((serve_users small_platform first_request small_server
          (arrival_of (codes "t1"))
          remove_call
          before).0
        ≡ (serve_users small_platform first_request small_server
            (arrival_of (codes "t1"))
            remove_call
            (own_account "u1" before)).0)
serve_users-own_example =
    serve_users-own small_platform first_request small_server (arrival_of (codes "t1")) remove_call
      ann_signed_in before token_of_ann refl

abbrev small_urls : Urls
small_urls = record { search_params = λ ps. []; show_number = λ n. [] }

-- A profile with Ann's address, which Google does not vouch for.
abbrev impostor : GoogleProfile
impostor = record {
  id = "g1";
  display_name = none;
  emails = some (record { value = codes "ann@acme.test"; verified = some false } ∷ []);
  email_verified = none;
}

sign_in_with_google-unverified_example :
    sign_in_with_google small_platform first_request small_urls
      (some (codes "/app"))
      impostor
      before
    ≡ (failed_redirect (codes "/app"), before)
sign_in_with_google-unverified_example =
    sign_in_with_google-unverified small_platform first_request small_urls (some (codes "/app"))
      impostor before refl

found_ann : first (has_email (normalise_email (codes "Ann@acme.test"))) before.users ≡ some ann
unfolding normalise_email
found_ann = refl

ann_deleted : (soft_delete small_platform first_request "u1" before).0 ≡ ok tt
unfolding soft_delete get_active_by_id
ann_deleted = refl

row_left :
    presented_row small_platform "old" (soft_delete small_platform first_request "u1" before).1
    ≡ some row
unfolding soft_delete get_active_by_id
row_left = refl

soft_delete-locks_out_example :
    ((login small_platform second_request
        (codes "Ann@acme.test")
        "x"
        (soft_delete small_platform first_request "u1" before).1).0
      ≡ err invalid_credentials)
    × (rotate small_platform second_request
          (λ x. x)
          "old"
          (soft_delete small_platform first_request "u1" before).1
        ≢ (ok pair, before))
soft_delete-locks_out_example =
    soft_delete-locks_out small_platform first_request second_request (λ x. x)
      (codes "Ann@acme.test") "x" "old" before before ann pair row found_ann ann_deleted row_left
      refl

bob-IsNew : IsNew small_platform first_request (codes "Bob@acme.test") before
unfolding normalise_email
bob-IsNew = record { unregistered = refl; no_method = refl; no_tenant = refl }

typed_otherwise : normalise_email (codes " bob@Acme.test") ≡ normalise_email (codes "Bob@acme.test")
unfolding normalise_email
typed_otherwise = refl

register-login_example :
    (access_of
        (login small_platform second_request
          (codes " bob@Acme.test")
          "secret"
          (register small_platform first_request
            (λ x. x)
            (codes "Bob@acme.test")
            "secret"
            none
            before).1).0
      ≡ some (
          small_platform.crypto.sign
            (claims_of (new_user first_request (normalise_email (codes "Bob@acme.test")) none))))
    × ((login small_platform second_request
          (codes " bob@Acme.test")
          "guess"
          (register small_platform first_request
            (λ x. x)
            (codes "Bob@acme.test")
            "secret"
            none
            before).1).0
        ≡ err invalid_credentials)
register-login_example =
    register-login small_platform first_request second_request (codes "Bob@acme.test")
      (codes " bob@Acme.test") "secret" "guess" none before bob-IsNew typed_otherwise refl refl

-- Ann signs in with Google, two registrations race for Bob's email, and Ann deletes her account.
abbrev bob_registers : History → AccountCall
bob_registers others = register_call others (codes "Bob@acme.test") "secret" none

abbrev ann_by_google : GoogleAuthUser
ann_by_google = record { email = codes "Ann@acme.test"; google_id = "g1"; display_name = none }

abbrev account_calls : History
account_calls = then_call first_request (google_call ann_by_google) (
    then_call first_request (bob_registers (then_call second_request (bob_registers over) over))
      (then_call second_request (delete_call "u1") over))

before-IsWellFormed : IsWellFormed (accounts_of before)
unfolding normalise_email
before-IsWellFormed = record {
  distinct = (refl, tt);
  normal = ((codes "ann@acme.test", refl), tt);
  housed = refl;
  owned = refl;
}

serve_calls-IsWellFormed_example :
    IsWellFormed (accounts_of (serve_calls small_platform account_calls before))
serve_calls-IsWellFormed_example =
    serve_calls-IsWellFormed small_platform account_calls before before-IsWellFormed

abbrev ann_can_log_in : State
ann_can_log_in = record before { login_methods = password_method "u1" "secret" ∷ [] }

-- A JWT library that knows one token, issued to Ann at time 10.
abbrev small_verify : JwtStrategyOptions → ℕ → Option Text → Option JwtPayload
small_verify strategy now none = none
small_verify strategy now (some t) =
    if text_eq t (bearer "jwt") && text_eq strategy.secret_or_key (codes "postgres://db")
    then (if strategy.ignore_expiration || ltb (seconds now) 900
        then some (claims_of ann)
        else none)
    else none

abbrev small_jwt : Jwt
small_jwt = record { sign = λ _ _ _. "jwt"; verify = small_verify }

abbrev module_platform : Platform
module_platform =
    platform list_client small_platform.crypto small_jwt small_env first_request
      (codes "ann@acme.test") "secret" ann_can_log_in

small_jwt-IsTakenInTime :
    (u : User)
    → find_by_email module_platform (normalise_email (codes "ann@acme.test")) ann_can_log_in
      ≡ some u
    → IsTakenInTime small_jwt (jwt_options small_env) 10 (claims_of u)
unfolding find_by_email normalise_email
small_jwt-IsTakenInTime u h strategy now same algorithm =
    let claims : some (claims_of ann) ≡ some (claims_of u) = ap (on_some claims_of) h in
    rw same (
      ap
        (λ (c : Option JwtPayload).
          if strategy.ignore_expiration || ltb (seconds now) 900 then c else none)
        claims)

ann_logs_in :
    (login module_platform first_request (codes "ann@acme.test") "secret" ann_can_log_in).0
    ≡ ok pair
unfolding login
ann_logs_in = refl

login-lifetime_example :
    (a : Accepted module_platform first_request
      (codes "ann@acme.test")
      "secret"
      ann_can_log_in
      pair)
    × ((later : ℕ)
        → authenticate (small_verify (jwt_strategy small_env) later) (some (bearer "jwt"))
          ≡ (if ltb (seconds later) 900 then ok (signed_in_as a.user) else err unauthorized))
login-lifetime_example =
    login-lifetime list_client small_platform.crypto small_jwt small_env first_request
      (codes "ann@acme.test") "secret" ann_can_log_in pair small_jwt-IsTakenInTime ann_logs_in

-- Bob's email is registered by somebody else, after the lookup.
abbrev bob_wins : State → State
bob_wins = serve_calls small_platform (then_call second_request (bob_registers over) over)

abbrev post_request : HttpRequest
post_request = record {
  id = some (codes "r1");
  url = codes "/auth/register";
  method = codes "POST";
}

abbrev created_route : Route
created_route = record { status = 201; skip_envelope = false }

abbrev bob : User
bob = new_user second_request (codes "bob@acme.test") none

register-conflict_example :
    (status_of (
        answer small_site created_route post_request 10 (
          tokens_body
            (register small_platform first_request bob_wins
              (codes "Bob@acme.test")
              "secret"
              none
              before).0))
      ≡ some 409)
    × ((register small_platform first_request bob_wins
          (codes "Bob@acme.test")
          "secret"
          none
          before).1
        ≡ bob_wins before)
unfolding register settle_register create_user_with_tenant find_by_email normalise_email serve_calls
    serve_call
register-conflict_example =
    register-conflict small_platform first_request bob_wins (codes "Bob@acme.test") "secret" none
      before bob small_site created_route post_request 10 (inr (refl, refl))
