-- ===== src/Auth/Lockout/Failures.antt =====
-- modules/auth/auth.service.ts: logins in a row, and what `registerFailedLogin` makes of an
-- account.
use ai_search_api.Base.{
  ℕ, ◌+◌, ◌*◌, String, ◌≡◌, refl, ap, ◌∙◌, inl, inr, Bool, true, not, none, some, List, [], ◌∷◌,
  leb, if◌then◌else◌, Bool-cases, first, change, first-change, first_sound,
}
use ai_search_api.Base.Text.{Text}
use ai_search_api.Auth.State.{User, LoginMethod, State, Request, Platform}
use ai_search_api.Auth.Service.{
  one_more_failure, locked, register_failed_login, is_password_of, login,
}
use ai_search_api.Users.{has_user_id}

module _ (p : Platform) where
  -- A login, as it was sent.
  pub record Attempt : Type 0 where
    pub request : Request
    pub email : Text
    pub password : String

  abbrev pub attempt_login : Attempt → State → State
  attempt_login a s = (login p a.request a.email a.password s).1

  -- One after another.
  abbrev pub logins : List Attempt → State → State
  logins [] s = s
  logins (a ∷ as') s = logins as' (attempt_login a s)

  abbrev pub lock_end : Request → ℕ
  lock_end req = req.now + p.config.login_lock_minutes * 60000

  abbrev pub after_failure : Request → User → User
  after_failure req v =
      if leb p.config.login_max_attempts (one_more_failure v).failed_login_attempts
      then locked (lock_end req) (one_more_failure v)
      else one_more_failure v

  -- The account has no password, or argon2 denies this one.
  abbrev pub is_denied : List LoginMethod → String → String → Bool
  is_denied methods id plain = elim (first (is_password_of id) methods) [
    | none ↦ true
    | some m ↦ elim m.password_hash [
      | none ↦ true
      | some hashed ↦ elim (p.crypto.verify hashed plain) [ none ↦ true | some b ↦ not b ]
    ]
  ]

module _ (p : Platform) (u : User) where
  pub first-register_failed_login :
      (q : User → Bool) (req : Request) (v : User) (s : State)
      → ((x : User) → q (one_more_failure x) ≡ q x)
      → ((time : ℕ) (x : User) → q (locked time x) ≡ q x)
      → first q s.users ≡ some v
      → first (has_user_id u.id) s.users ≡ some v
      → first q (register_failed_login p req u s).users ≡ some (after_failure p req v)
  unfolding register_failed_login
  first-register_failed_login q req v s same same' listed found =
      let mine : has_user_id u.id v ≡ true = first_sound (has_user_id u.id) s.users v found in
      let counted : first (has_user_id u.id) (change (has_user_id u.id) one_more_failure s.users)
          ≡ some (one_more_failure v) =
        first-change (has_user_id u.id) (has_user_id u.id) one_more_failure (λ x. refl) s.users v
          found
        ∙ ap (λ b. some (if b then one_more_failure v else v)) mine in
      let counted' : first q (change (has_user_id u.id) one_more_failure s.users)
          ≡ some (one_more_failure v) =
        first-change q (has_user_id u.id) one_more_failure same s.users v listed
        ∙ ap (λ b. some (if b then one_more_failure v else v)) mine in
      elim (Bool-cases
        (leb p.config.login_max_attempts (one_more_failure v).failed_login_attempts)) [
          | inl h ↦
              rw
                (
                  register_failed_login,
                  p.db.update_many_lem (has_user_id u.id) one_more_failure s.users,
                  p.db.find_first_lem,
                  counted,
                  h,
                  p.db.update_many_lem (has_user_id u.id) one_more_failure s.users,
                  p.db.update_many_lem,
                )
                (first-change q (has_user_id u.id) (locked (lock_end p req))
                    (same' (lock_end p req)) _ (one_more_failure v) counted'
                  ∙ ap
                      (λ b. some (
                        if b
                        then locked (lock_end p req) (one_more_failure v)
                        else one_more_failure v))
                      mine)
          | inr h ↦
              rw
                (
                  register_failed_login,
                  p.db.update_many_lem (has_user_id u.id) one_more_failure s.users,
                  p.db.find_first_lem,
                  counted,
                  h,
                  p.db.update_many_lem (has_user_id u.id) one_more_failure s.users,
                )
                counted'
        ]
