-- ===== src/Auth/Lockout.antt =====
-- modules/auth/auth.service.ts: how logins with a wrong password in a row lock an account.
pub mod Failures
use ai_search_api.Base.{
  ℕ, ◌+◌, ◌<◌, String, ◌≡◌, refl, ap, ◌∙◌, Bool, true, false, none, some, List, [], ◌∷◌, arith, leb,
  length, first, All,
}
use native.Mathlib.Nat.{zero-add}
use ai_search_api.Base.Result.{err}
use ai_search_api.Base.Text.{Text}
use ai_search_api.Auth.State.{User, LoginMethod, State, Request, Platform}
use ai_search_api.Auth.Passwords.{verify, verify_dummy}
use ai_search_api.Auth.Service.{
  one_more_failure, locked, register_failed_login, is_password_of, check_password, settle_login,
  if_not_deleted, is_locked, normalise_email, login, invalid_credentials, account_locked,
}
use ai_search_api.Users.{has_user_id, has_email, find_by_email}
use ai_search_api.Auth.Lockout.Failures.{
  Attempt, attempt_login, logins, lock_end, after_failure, is_denied, first-register_failed_login,
}

module _ (p : Platform) (email : Text) (methods : List LoginMethod) where
  -- The account in the tables, by its email and by its id, with the login methods.
  abbrev pub Holds : User → State → Type 0
  Holds v s =
      (first (has_email email) s.users ≡ some v)
      × (first (has_user_id v.id) s.users ≡ some v)
      × (s.login_methods ≡ methods)

  -- A login for the account, while it is not locked, with a password that is wrong.
  abbrev pub IsWrong : User → Attempt p → Type 0
  IsWrong v a =
      (normalise_email a.email ≡ email)
      × (is_locked a.request.now v.locked_until ≡ false)
      × (is_denied p methods v.id a.password ≡ true)

  check_password-denied :
      (req : Request) (v : User) (plain : String) (s : State)
      → s.login_methods ≡ methods
      → is_denied p methods v.id plain ≡ true
      → ((check_password p req (some v) plain s).0 ≡ false)
        × ((check_password p req (some v) plain s).1.users ≡ s.users)
        × ((check_password p req (some v) plain s).1.login_methods ≡ methods)
  unfolding check_password verify verify_dummy
  check_password-denied req v plain s kept denied =
      let asked : p.db.find_first (is_password_of v.id) s.login_methods
          ≡ first (is_password_of v.id) methods =
        p.db.find_first_lem (is_password_of v.id) s.login_methods
        ∙ ap (first (is_password_of v.id)) kept in
      ground (arith, asked, kept, denied)

  register_failed_login-methods :
      (req : Request) (v : User) (s : State)
      → (register_failed_login p req v s).login_methods ≡ s.login_methods
  unfolding register_failed_login
  register_failed_login-methods req v s = ground arith

  after_failure-id : (req : Request) (v : User) → (after_failure p req v).id ≡ v.id
  after_failure-id req v = ground arith

  login-wrong :
      (a : Attempt p) (v : User) (s : State)
      → v.deleted_at ≡ none
      → Holds v s
      → IsWrong v a
      → ((login p a.request a.email a.password s).0 ≡ err invalid_credentials)
        × Holds (after_failure p a.request v) (attempt_login p a s)
  unfolding login find_by_email settle_login
  login-wrong a v s active (listed, found, kept) (same, unlocked, denied) =
      let user : if_not_deleted (find_by_email p (normalise_email a.email) s) ≡ some v = rw same (
        ap if_not_deleted (p.db.find_first_lem (has_email email) s.users ∙ listed)
        ∙ ground (arith, active)) in
      let (wrong, users, kept') = check_password-denied a.request v a.password s kept denied in
      let checked = check_password p a.request (some v) a.password s in
      let failed : login p a.request a.email a.password s
          ≡ (err invalid_credentials, register_failed_login p a.request v checked.1) =
        ground (arith, user, unlocked, wrong) in
      let moved : attempt_login p a s ≡ register_failed_login p a.request v checked.1 =
        ap (λ r. r.1) failed in
      let next : (q : User → Bool)
          → ((x : User) → q (one_more_failure x) ≡ q x)
          → ((time : ℕ) (x : User) → q (locked time x) ≡ q x)
          → first q s.users ≡ some v
          → first q (attempt_login p a s).users ≡ some (after_failure p a.request v) =
        λ q same1 same2 e.
          ap (λ (t : State). first q t.users) moved
          ∙ first-register_failed_login p v q a.request v checked.1 same1 same2
              (ap (first q) users ∙ e) (ap (first (has_user_id v.id)) users ∙ found) in
      (
        ap (λ r. r.0) failed,
        (
          next (has_email email) (λ x. refl) (λ t x. refl) listed,
          ap (λ i. first (has_user_id i) (attempt_login p a s).users) (after_failure-id a.request v)
              ∙ next (has_user_id v.id) (λ x. refl) (λ t x. refl) found,
          ap (λ (t : State). t.login_methods) moved
              ∙ register_failed_login-methods a.request v checked.1
              ∙ kept',
        ),
      )

  login-locked :
      (req : Request) (raw : Text) (plain : String) (v : User) (s : State)
      → v.deleted_at ≡ none
      → first (has_email email) s.users ≡ some v
      → normalise_email raw ≡ email
      → is_locked req.now v.locked_until ≡ true
      → (login p req raw plain s).0 ≡ err account_locked
  unfolding login find_by_email
  login-locked req raw plain v s active listed same shut =
      let user : if_not_deleted (find_by_email p (normalise_email raw) s) ≡ some v = rw same (
        ap if_not_deleted (p.db.find_first_lem (has_email email) s.users ∙ listed)
        ∙ ground (arith, active)) in
      ground (arith, user, shut)

  -- An account that is not deleted, under its email and its id in the users table, and logins for
  -- that email in any spelling, one after another, each with a password that argon2 denies (or to
  -- an account without one) and while the account is not locked, as many as its count leaves below
  -- the limit. Before the last of them the account is as it was, but for its count, one higher for
  -- each. The last locks it for the configured minutes from then, with its count at zero again, and
  -- any login for that email on those tables before that time, the right password included, is
  -- refused.
  pub logins-lock :
      (attempts : List (Attempt p)) (final : Attempt p) (v : User) (s : State)
      → v.deleted_at ≡ none
      → Holds v s
      → All (IsWrong v) attempts
      → IsWrong v final
      → length attempts + 1 + v.failed_login_attempts ≡ p.config.login_max_attempts
      → (first (has_email email) (logins p attempts s).users
          ≡ some (record v { failed_login_attempts = length attempts + v.failed_login_attempts }))
        × (first (has_email email) (attempt_login p final (logins p attempts s)).users
            ≡ some (record v {
              failed_login_attempts = 0;
              locked_until = some (lock_end p final.request);
            }))
        × ((req : Request) (raw : Text) (plain : String)
            → normalise_email raw ≡ email
            → req.now < lock_end p final.request
            → (login p req raw plain (attempt_login p final (logins p attempts s))).0
              ≡ err account_locked)
  logins-lock [] final v s active held wrong last reaches =
      let limit : leb p.config.login_max_attempts (one_more_failure v).failed_login_attempts
          ≡ true =
        ground (arith, reaches) in
      let ended : first (has_email email) (attempt_login p final s).users
          ≡ some (locked (lock_end p final.request) (one_more_failure v)) =
        (login-wrong final v s active held last).1.0 ∙ rw limit refl in
      (
        rw (zero-add v.failed_login_attempts) held.0,
        ended,
        λ req raw plain same early.
            login-locked req raw plain (locked (lock_end p final.request) (one_more_failure v))
              (attempt_login p final s) active ended same (ground (arith, early)),
      )
  logins-lock (a ∷ as') final v s active held wrong last reaches =
      let below : leb p.config.login_max_attempts (one_more_failure v).failed_login_attempts
          ≡ false =
        ground (arith, reaches) in
      let counted : Holds (one_more_failure v) (attempt_login p a s) =
        let kept : Holds (after_failure p a.request v) (attempt_login p a s) =
          (login-wrong a v s active held wrong.0).1 in
        rw below at kept in
      let (left, ended, shut) =
        logins-lock as' final (one_more_failure v) (attempt_login p a s) active counted wrong.1 last
          (omega (arith, reaches)) in
      (left ∙ ap (λ n. some (record v { failed_login_attempts = n })) (omega arith), ended, shut)
