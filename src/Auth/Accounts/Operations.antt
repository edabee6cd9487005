-- ===== src/Auth/Accounts/Operations.antt =====
-- modules/auth and modules/users: the operations that leave the accounts as they are.
use ai_search_api.Base.{
  ◌+◌, ◌*◌, String, ◌≡◌, refl, ◌∙◌, inl, inr, Bool, true, false, not, ◌||◌, Option, none, some,
  List, [], ◌∷◌, map, arith, ltb, leb, Bool-cases, Option-cases, change,
}
use ai_search_api.Base.Result.{Result-cases}
use ai_search_api.Base.Text.{Text}
use ai_search_api.Auth.State.{User, RefreshToken, State, Request, Platform, is_null}
use ai_search_api.Auth.Passwords.{verify, verify_dummy}
use ai_search_api.Auth.Tokens.{has_hash, rotate, rotate_row, claim_token, owner_of, is_active}
use ai_search_api.Auth.Service.{
  normalise_email, login, if_not_deleted, lock_of, is_locked, check_password, settle_login,
  complete_login, register_failed_login, tenant_active, is_password_of, cleared, one_more_failure,
  locked,
}
use ai_search_api.Users.{
  has_user_id, find_by_email, get_active_by_id, update_profile, soft_delete, with_name,
  with_name-keeps, as_deleted,
}
use ai_search_api.Auth.Accounts.{accounts_of, IsWellFormed}

pub map-change :
    {A B : Type 0} (g : A → B) (q : A → Bool) (f : A → A)
    → ((x : A) → g (f x) ≡ g x)
    → (xs : List A) → map g (change q f xs) ≡ map g xs
map-change g q f same [] = refl
map-change g q f same (x ∷ xs) = ground (arith, same x, map-change g q f same xs)

module _ (p : Platform) where
  -- A change of users that leaves id, tenant and email alone.
  updated-accounts :
      (q : User → Bool) (f : User → User) (s : State)
      → ((u : User) → (f u).id ≡ u.id)
      → ((u : User) → (f u).tenant_id ≡ u.tenant_id)
      → ((u : User) → (f u).email ≡ u.email)
      → accounts_of (record s { users = (p.db.update_many q f s.users).0 }) ≡ accounts_of s
  updated-accounts q f s ids homes emails =
      rw
        (
          p.db.update_many_lem,
          map-change (λ (u : User). u.id) q f ids s.users,
          map-change (λ (u : User). u.tenant_id) q f homes s.users,
          map-change (λ (u : User). u.email) q f emails s.users,
        )
        refl

  verify-accounts :
      (hashed plain : String) (s : State) → accounts_of (verify p hashed plain s).1 ≡ accounts_of s
  unfolding verify
  verify-accounts hashed plain s = elim (Option-cases (p.crypto.verify hashed plain)) [
    | inl e ↦ rw (verify, e) refl
    | inr (b, e) ↦ rw (verify, e) refl
  ]

  verify_dummy-accounts :
      (req : Request) (plain : String) (s : State)
      → accounts_of (verify_dummy p req plain s).1 ≡ accounts_of s
  unfolding verify_dummy
  verify_dummy-accounts req plain s = verify-accounts _ plain _

  check_password-accounts :
      (req : Request) (u : Option User) (plain : String) (s : State)
      → accounts_of (check_password p req u plain s).1 ≡ accounts_of s
  unfolding check_password
  check_password-accounts req none plain s = verify_dummy-accounts req plain s
  check_password-accounts req (some u) plain s =
      elim (Option-cases (p.db.find_first (is_password_of u.id) s.login_methods)) [
        | inl e ↦ rw (check_password, e) (verify_dummy-accounts req plain s)
        | inr (m, e) ↦ elim (Option-cases m.password_hash) [
          | inl h ↦ rw (check_password, e, h) (verify_dummy-accounts req plain s)
          | inr (hashed, h) ↦ rw (check_password, e, h) (verify-accounts hashed plain s)
        ]
      ]

  complete_login-accounts :
      (req : Request) (u : User) (s : State)
      → accounts_of (complete_login p req u s).1 ≡ accounts_of s
  unfolding complete_login
  complete_login-accounts req u s = elim (Bool-cases (tenant_active p u.tenant_id s)) [
    | inl a ↦ elim (Bool-cases (ltb 0 u.failed_login_attempts || not (is_null u.locked_until))) [
      | inl c ↦
          rw (complete_login, a, c)
            (updated-accounts (has_user_id u.id) cleared s (λ v. refl) (λ v. refl) (λ v. refl))
      | inr c ↦ rw (complete_login, a, c) refl
    ]
    | inr a ↦ rw (complete_login, a) refl
  ]

  register_failed_login-accounts :
      (req : Request) (u : User) (s : State)
      → accounts_of (register_failed_login p req u s) ≡ accounts_of s
  unfolding register_failed_login
  register_failed_login-accounts req u s =
      let s1 : State = record s {
        users = (p.db.update_many (has_user_id u.id) one_more_failure s.users).0;
      } in
      let time = req.now + p.config.login_lock_minutes * 60000 in
      let counted =
        updated-accounts (has_user_id u.id) one_more_failure s (λ v. refl) (λ v. refl)
          (λ v. refl) in
      elim (Option-cases (p.db.find_first (has_user_id u.id) s1.users)) [
        | inl e ↦ rw (register_failed_login, e) counted
        | inr (v, e) ↦ elim (Bool-cases (leb p.config.login_max_attempts v.failed_login_attempts)) [
          | inl c ↦
              rw (register_failed_login, e, c)
                (updated-accounts (has_user_id u.id) (locked time) s1 (λ v. refl) (λ v. refl)
                    (λ v. refl)
                  ∙ counted)
          | inr c ↦ rw (register_failed_login, e, c) counted
        ]
      ]

  settle_login-accounts :
      (req : Request) (u : Option User) (c : Bool × State)
      → accounts_of (settle_login p req u c).1 ≡ accounts_of c.1
  unfolding settle_login
  settle_login-accounts req none (b, s) = refl
  settle_login-accounts req (some u) (true, s) = complete_login-accounts req u s
  settle_login-accounts req (some u) (false, s) = register_failed_login-accounts req u s

  pub login-accounts :
      (req : Request) (email : Text) (plain : String) (s : State)
      → accounts_of (login p req email plain s).1 ≡ accounts_of s
  unfolding login
  login-accounts req email plain s =
      let u = if_not_deleted (find_by_email p (normalise_email email) s) in
      elim (Bool-cases (is_locked req.now (lock_of p u))) [
        | inl l ↦ rw (login, l) refl
        | inr l ↦
            rw (login, l)
              (settle_login-accounts req u (check_password p req u plain s)
                ∙ check_password-accounts req u plain s)
      ]

  claim_token-accounts :
      (req : Request) (others : State → State) (t : RefreshToken) (u : User) (s : State)
      → accounts_of (claim_token p req others t u s).1 ≡ accounts_of (others s)
  unfolding claim_token
  claim_token-accounts req others t u s = ground (arith)

  rotate_row-IsWellFormed :
      (req : Request) (others : State → State) (t : RefreshToken) (s : State)
      → IsWellFormed (accounts_of s)
      → IsWellFormed (accounts_of (others s))
      → IsWellFormed (accounts_of (rotate_row p req others t s).1)
  unfolding rotate_row
  rotate_row-IsWellFormed req others t s v after = elim (Bool-cases (ltb t.expires_at req.now)) [
    | inl e ↦ rw (rotate_row, e) v
    | inr e ↦ elim (Bool-cases (not (is_null t.revoked_at))) [
      | inl r ↦ rw (rotate_row, e, r) v
      | inr r ↦ elim (Option-cases (owner_of p t s)) [
        | inl o ↦ rw (rotate_row, e, r, o) v
        | inr ((u, n), o) ↦ elim (Bool-cases (is_active p (u, n))) [
          | inl a ↦ rw (rotate_row, e, r, o, a, claim_token-accounts req others t u s) after
          | inr a ↦ rw (rotate_row, e, r, o, a) v
        ]
      ]
    ]
  ]

  pub rotate-IsWellFormed :
      (req : Request) (others : State → State) (presented : String) (s : State)
      → IsWellFormed (accounts_of s)
      → IsWellFormed (accounts_of (others s))
      → IsWellFormed (accounts_of (rotate p req others presented s).1)
  unfolding rotate
  rotate-IsWellFormed req others presented s v after =
      elim (Option-cases
        (p.db.find_first (has_hash (p.crypto.hash_token presented)) s.refresh_tokens)) [
          | inl e ↦ rw (rotate, e) v
          | inr (t, e) ↦ rw (rotate, e) (rotate_row-IsWellFormed req others t s v after)
        ]

  pub update_profile-accounts :
      (req : Request) (id : String) (name : Option (Option Text)) (s : State)
      → accounts_of (update_profile p req id name s).1 ≡ accounts_of s
  unfolding update_profile
  update_profile-accounts req id name s = elim (Result-cases (get_active_by_id p id s)) [
    | inl (u, e) ↦
        rw (update_profile, e)
          (updated-accounts (has_user_id id) (with_name p name) s
            (λ v. (with_name-keeps p name v).0) (λ v. (with_name-keeps p name v).1)
            (λ v. (with_name-keeps p name v).2))
    | inr (t, e) ↦ rw (update_profile, e) refl
  ]

  pub soft_delete-accounts :
      (req : Request) (id : String) (s : State)
      → accounts_of (soft_delete p req id s).1 ≡ accounts_of s
  unfolding soft_delete
  soft_delete-accounts req id s = elim (Result-cases (get_active_by_id p id s)) [
    | inl (u, e) ↦
        rw (soft_delete, e)
          (updated-accounts (has_user_id id) (as_deleted p req.now) s (λ v. refl) (λ v. refl)
            (λ v. refl))
    | inr (t, e) ↦ rw (soft_delete, e) refl
  ]
