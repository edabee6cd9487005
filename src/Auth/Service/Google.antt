-- ===== src/Auth/Service/Google.antt =====
-- modules/auth/auth.service.ts, `issueSessionForGoogleUser`.
use ai_search_api.Base.{
  String, Bool, false, not, ◌&&◌, Option, none, some, List, str_eq, ◌==◌, if◌then◌else◌,
}
use ai_search_api.Base.Result.{Thrown, http, Result, ok, err}
use ai_search_api.Base.Text.{Text}
use ai_search_api.Core.AuditLog.{entry_of, on_user, by_method}
use ai_search_api.Auth.State.{
  google, User, LoginMethod, State, AuthTokens, Request, Platform, is_null, audited,
}
use ai_search_api.Auth.Tokens.{issue, subject_of}
use ai_search_api.Auth.Service.{is_google, normalise_email, tenant_active, workspace_inactive}
use ai_search_api.Users.{find_by_email, create_user_with_tenant, has_user_id}

abbrev is_text : Option String → String → Bool
is_text none id = false
is_text (some t) id = str_eq t id

abbrev pub is_google_of : String → LoginMethod → Bool
is_google_of user_id m = str_eq m.user_id user_id && is_google m.provider

abbrev pub is_google_account : String → LoginMethod → Bool
is_google_account google_id m = is_google m.provider && is_text m.provider_account_id google_id

abbrev pub account_inactive : Thrown
account_inactive = http 401 "This account is no longer active"

abbrev pub google_method : String → String → LoginMethod
google_method user_id google_id = record {
  user_id = user_id;
  provider = google;
  provider_account_id = some google_id;
  password_hash = none;
}

abbrev pub with_account : String → LoginMethod → LoginMethod
with_account google_id m = record m { provider_account_id = some google_id }

-- modules/auth/strategies/google.strategy.ts, the identity that the redirect flow yields.
pub record GoogleAuthUser : Type 0 where
  pub email : Text
  pub google_id : String
  pub display_name : Option Text

module _ (p : Platform) where
  -- An identity that is linked already; `include: { user: true }` is a required relation.
  unfoldable pub google_linked : Request → User → State → Result AuthTokens × State
  unfolding tenant_active issue
  google_linked req u s =
      if not (is_null u.deleted_at)
      then (err account_inactive, s)
      else if tenant_active p u.tenant_id s
      then issue p req (subject_of u) (
          audited p req (by_method "google" (on_user u.id (entry_of "auth.login" u.tenant_id u.id)))
            s)
      else (err workspace_inactive, s)

  -- `upsert` of the Google method of the account.
  unfoldable pub link_google : String → String → List LoginMethod → List LoginMethod
  link_google user_id google_id methods =
      let (rows, changed) =
        p.db.update_many (is_google_of user_id) (with_account google_id) methods in
      if changed == 0 then p.db.create (google_method user_id google_id) methods else rows

  unfoldable pub google_existing : Request → String → User → State → Result AuthTokens × State
  unfolding tenant_active link_google issue
  google_existing req google_id u s =
      if not (is_null u.deleted_at)
      then (err account_inactive, s)
      else if tenant_active p u.tenant_id s
      then issue p req (subject_of u) (
          audited p req (by_method "google" (on_user u.id (entry_of "auth.login" u.tenant_id u.id)))
            (record s { login_methods = link_google u.id google_id s.login_methods }))
      else (err workspace_inactive, s)

  unfoldable pub google_opened :
      Request → String → State → Result (User × State) → Result AuthTokens × State
  unfolding issue
  google_opened req google_id s (err e) = (err e, s)
  google_opened req google_id s (ok (user, s1)) = issue p req (subject_of user) (
      audited p req
        (by_method "google" (on_user user.id (entry_of "auth.register" user.tenant_id user.id)))
        (record s1 {
          login_methods = p.db.create (google_method user.id google_id) s1.login_methods;
        }))

  unfoldable pub google_new : Request → Text → GoogleAuthUser → State → Result AuthTokens × State
  unfolding create_user_with_tenant google_opened
  google_new req email profile s =
      google_opened req profile.google_id s
        (create_user_with_tenant p req email profile.display_name s)

  -- An identity that is not linked: by email, to link it or to open an account.
  unfoldable pub google_unlinked : Request → GoogleAuthUser → State → Result AuthTokens × State
  unfolding google_existing google_new find_by_email normalise_email
  google_unlinked req profile s = elim (find_by_email p (normalise_email profile.email) s) [
    | some u ↦ google_existing req profile.google_id u s
    | none ↦ google_new req (normalise_email profile.email) profile s
  ]

  -- By the stable Google account id first, by email only to link.
  unfoldable pub issue_session_for_google_user :
      Request → GoogleAuthUser → State → Result AuthTokens × State
  unfolding google_linked google_unlinked
  issue_session_for_google_user req profile s =
      let linked : Option LoginMethod =
        p.db.find_first (is_google_account profile.google_id) s.login_methods in
      let by_link : Option User = elim linked [
        | none ↦ none
        | some m ↦ p.db.find_first (has_user_id m.user_id) s.users
      ] in
      elim by_link [ some u ↦ google_linked req u s | none ↦ google_unlinked req profile s ]
