-- ===== src/Auth/Accounts/Histories.antt =====
-- modules/auth and modules/users: the accounts over whole histories.
use ai_search_api.Base.{String, Option}
use ai_search_api.Base.Text.{Text}
use ai_search_api.Auth.State.{State, Request, Platform}
use ai_search_api.Auth.Tokens.{rotate, revoke}
use ai_search_api.Auth.Service.{register, login}
use ai_search_api.Auth.Service.Google.{GoogleAuthUser, issue_session_for_google_user}
use ai_search_api.Users.{update_profile, soft_delete}
use ai_search_api.Auth.Accounts.{accounts_of, IsWellFormed}
use ai_search_api.Auth.Accounts.Operations.{
  login-accounts, rotate-IsWellFormed, update_profile-accounts, soft_delete-accounts,
}
use ai_search_api.Auth.Accounts.Openings.{register-IsWellFormed, google-IsWellFormed}

-- A call, and calls one after the other. A registration and a refresh read before they write: they
-- carry the calls of others that fall in between, which are raced by others in their turn.
mutual
  pub data AccountCall : Type 0 where
    register_call : History → Text → String → Option Text → AccountCall
    login_call : Text → String → AccountCall
    google_call : GoogleAuthUser → AccountCall
    refresh_call : History → String → AccountCall
    logout_call delete_call : String → AccountCall
    update_call : String → Option (Option Text) → AccountCall

  pub data History : Type 0 where
    over : History
    then_call : Request → AccountCall → History → History

module _ (p : Platform) where
  unfoldable mutual
    unfolding register login issue_session_for_google_user rotate revoke update_profile soft_delete

    pub serve_call : Request → AccountCall → State → State
    serve_call req (register_call others email plain name) s =
        (register p req (serve_calls others) email plain name s).1
    serve_call req (login_call email plain) s = (login p req email plain s).1
    serve_call req (google_call profile) s = (issue_session_for_google_user p req profile s).1
    serve_call req (refresh_call others token) s = (rotate p req (serve_calls others) token s).1
    serve_call req (logout_call token) s = revoke p req token s
    serve_call req (delete_call id) s = (soft_delete p req id s).1
    serve_call req (update_call id name) s = (update_profile p req id name s).1

    pub serve_calls : History → State → State
    serve_calls over s = s
    serve_calls (then_call req call calls) s = serve_calls calls (serve_call req call s)

  mutual
    unfolding serve_call serve_calls revoke

    serve_call-IsWellFormed :
        (call : AccountCall) (req : Request) (s : State)
        → IsWellFormed (accounts_of s)
        → IsWellFormed (accounts_of (serve_call req call s))
    serve_call-IsWellFormed (register_call others email plain name) req s v =
        register-IsWellFormed p req (serve_calls others) email plain name s v
          (histories-IsWellFormed others s v)
    serve_call-IsWellFormed (login_call email plain) req s v =
        rw (login-accounts p req email plain s) v
    serve_call-IsWellFormed (google_call profile) req s v = google-IsWellFormed p req profile s v
    serve_call-IsWellFormed (refresh_call others token) req s v =
        rotate-IsWellFormed p req (serve_calls others) token s v (histories-IsWellFormed others s v)
    serve_call-IsWellFormed (logout_call token) req s v = v
    serve_call-IsWellFormed (delete_call id) req s v = rw (soft_delete-accounts p req id s) v
    serve_call-IsWellFormed (update_call id name) req s v =
        rw (update_profile-accounts p req id name s) v

    histories-IsWellFormed :
        (calls : History) (s : State)
        → IsWellFormed (accounts_of s)
        → IsWellFormed (accounts_of (serve_calls calls s))
    histories-IsWellFormed over s v = v
    histories-IsWellFormed (then_call req call calls) s v =
        histories-IsWellFormed calls (serve_call req call s) (serve_call-IsWellFormed call req s v)

  -- Over any history of registrations, logins, Google sign-ins, refreshes, logouts, changes and
  -- deletions of accounts, where the calls of others, raced in their turn, may fall between the
  -- read and the write of a registration (so that two of them race for one email) or of a refresh,
  -- from tables where it is so: no two accounts have one email, deleted ones included, every email
  -- is in the form that a login looks up, every account has its tenant, and every login method its
  -- account.
  pub serve_calls-IsWellFormed :
      (calls : History) (s : State)
      → IsWellFormed (accounts_of s)
      → IsWellFormed (accounts_of (serve_calls calls s))
  serve_calls-IsWellFormed = histories-IsWellFormed
