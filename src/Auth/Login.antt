-- ===== src/Auth/Login.antt =====
-- modules/auth/auth.service.ts, `login`: the work that it spends on argon2.
use ai_search_api.Base.{
  suc, ◌+◌, String, ◌≡◌, refl, inl, inr, Bool, true, false, Option, none, some, arith,
  if◌then◌else◌, Bool-cases, length,
}
use ai_search_api.Base.Text.{Text}
use ai_search_api.Auth.State.{User, State, Request, Platform}
use ai_search_api.Auth.Passwords.{verify, verify_dummy}
use ai_search_api.Auth.Tokens.{issue, create_refresh_token}
use ai_search_api.Auth.Service.{
  if_not_deleted, normalise_email, is_locked, lock_of, register_failed_login, check_password,
  complete_login, settle_login, login,
}
use ai_search_api.Users.{find_by_email}

module _ (p : Platform) (req : Request) where
  verified-register_failed_login :
      (u : User) (s : State) → (register_failed_login p req u s).verified ≡ s.verified
  unfolding register_failed_login
  verified-register_failed_login u s = ground arith

  verified-complete_login :
      (u : User) (s : State) → (complete_login p req u s).1.verified ≡ s.verified
  unfolding complete_login issue create_refresh_token
  verified-complete_login u s = ground arith

  verified-settle_login :
      (user : Option User) (checked : Bool × State)
      → (settle_login p req user checked).1.verified ≡ checked.1.verified
  unfolding settle_login
  verified-settle_login none (b, s) = refl
  verified-settle_login (some u) (true, s) = verified-complete_login u s
  verified-settle_login (some u) (false, s) = verified-register_failed_login u s

  verified-check_password :
      (user : Option User) (plain : String) (s : State)
      → length (check_password p req user plain s).1.verified ≡ suc (length s.verified)
  unfolding check_password verify verify_dummy
  verified-check_password none plain s = ground arith
  verified-check_password (some u) plain s = ground arith

  -- A login that is not refused for a lock asks argon2 for exactly one verification, whether or not
  -- the email has an account, the account a password, and the password is right; a login that is
  -- refused for a lock asks for none.
  pub login-verified :
      (email : Text) (plain : String) (s : State)
      → length (login p req email plain s).1.verified
        ≡ (if is_locked req.now
              (lock_of p (if_not_deleted (find_by_email p (normalise_email email) s)))
            then 0
            else 1)
          + length s.verified
  unfolding login
  login-verified email plain s =
      let user : Option User = if_not_deleted (find_by_email p (normalise_email email) s) in
      elim (Bool-cases (is_locked req.now (lock_of p user))) [
        | inl h ↦ rw (login, h) (omega arith)
        | inr h ↦
            rw
              (
                login,
                h,
                verified-settle_login user (check_password p req user plain s),
                verified-check_password user plain s,
              )
              (omega arith)
      ]
