-- ===== src/Auth/Registration.antt =====
-- modules/auth/auth.service.ts: `login` after `register`.
use ai_search_api.Base.{
  String, ◌≡◌, refl, ap, ◌∙◌, Bool, true, false, Option, none, some, List, arith, str_eq, eq_refl,
  first,
}
use ai_search_api.Base.Result.{Result, ok, err}
use ai_search_api.Base.Text.{Text, text_eq_refl}
use ai_search_api.Base.Keys.{first-append_all}
use ai_search_api.Auth.State.{Tenant, User, State, AuthTokens, JwtPayload, Request, Platform}
use ai_search_api.Auth.Passwords.{verify}
use ai_search_api.Auth.Tokens.{issue, create_refresh_token}
use ai_search_api.Auth.Service.{
  if_not_deleted, normalise_email, lock_of, is_locked, check_password, settle_login, complete_login,
  tenant_active, login, register, settle_register, is_password_of, password_method,
  invalid_credentials,
}
use ai_search_api.Users.{has_email, new_user, create_user_with_tenant-free, find_by_email}

-- The claims in the access token of a user.
abbrev pub claims_of : User → JwtPayload
claims_of u = record { sub = u.id; tenant_id = u.tenant_id; email = u.email }

abbrev pub access_of : Result AuthTokens → Option String
access_of (ok tokens) = some tokens.access_token
access_of (err e) = none

module _ (p : Platform) where
  -- The ids of the new account are not in use.
  pub record IsNew (req : Request) (email : Text) (s : State) : Type 0 where
    pub unregistered : first (has_email (normalise_email email)) s.users ≡ none
    pub no_method : first (is_password_of req.user_id) s.login_methods ≡ none
    pub no_tenant : first (λ (n : Tenant). str_eq n.id req.tenant_id) s.tenants ≡ none

  found-created :
      {Row : Type 0} (q : Row → Bool) (r : Row) (rows : List Row)
      → first q rows ≡ none
      → q r ≡ true
      → p.db.find_first q (p.db.create r rows) ≡ some r
  found-created q r rows h k =
      rw (p.db.find_first_lem, p.db.create_lem, first-append_all q rows r, h, k) refl

  register-users :
      (req : Request) (email : Text) (plain : String) (name : Option Text) (s : State)
      → find_by_email p (normalise_email email) s ≡ none
      → (register p req (λ x. x) email plain name s).1.users
        ≡ p.db.create (new_user req (normalise_email email) name) s.users
  unfolding register settle_register issue create_refresh_token
  register-users req email plain name s h =
      rw (register, h, create_user_with_tenant-free p req (normalise_email email) name s h) refl

  register-login_methods :
      (req : Request) (email : Text) (plain : String) (name : Option Text) (s : State)
      → find_by_email p (normalise_email email) s ≡ none
      → (register p req (λ x. x) email plain name s).1.login_methods
        ≡ p.db.create (password_method req.user_id (p.crypto.hash plain)) s.login_methods
  unfolding register settle_register issue create_refresh_token
  register-login_methods req email plain name s h =
      rw (register, h, create_user_with_tenant-free p req (normalise_email email) name s h) refl

  register-tenants :
      (req : Request) (email : Text) (plain : String) (name : Option Text) (s : State)
      → find_by_email p (normalise_email email) s ≡ none
      → (register p req (λ x. x) email plain name s).1.tenants
        ≡ p.db.create (record { id = req.tenant_id; deleted_at = none }) s.tenants
  unfolding register settle_register issue create_refresh_token
  register-tenants req email plain name s h =
      rw (register, h, create_user_with_tenant-free p req (normalise_email email) name s h) refl

  settle_login-accepted :
      (req : Request) (u : User) (c : Bool × State)
      → c.0 ≡ true
      → tenant_active p u.tenant_id c.1 ≡ true
      → access_of (settle_login p req (some u) c).0 ≡ some (p.crypto.sign (claims_of u))
  unfolding settle_login complete_login issue create_refresh_token
  settle_login-accepted req u (true, s) checked active = rw (complete_login, active) refl
  settle_login-accepted req u (false, s) checked active = ground (arith, checked)

  settle_login-refused :
      (req : Request) (u : User) (c : Bool × State)
      → c.0 ≡ false
      → (settle_login p req (some u) c).0 ≡ err invalid_credentials
  unfolding settle_login
  settle_login-refused req u (true, s) refused = ground (arith, refused)
  settle_login-refused req u (false, s) refused = refl

  login-unlocked :
      (req : Request) (email : Text) (plain : String) (u : User) (s : State)
      → if_not_deleted (find_by_email p (normalise_email email) s) ≡ some u
      → u.locked_until ≡ none
      → login p req email plain s
        ≡ settle_login p req (some u) (check_password p req (some u) plain s)
  unfolding login
  login-unlocked req email plain u s user unlocked =
      let no_lock : is_locked req.now (lock_of p (some u)) ≡ false =
        ap (is_locked req.now) unlocked in
      rw (login, user, no_lock) refl

  check_password-method :
      (req : Request) (plain hashed : String) (u : User) (s : State) (answer : Bool)
      → p.db.find_first (is_password_of u.id) s.login_methods ≡ some (password_method u.id hashed)
      → p.crypto.verify hashed plain ≡ some answer
      → ((check_password p req (some u) plain s).0 ≡ answer)
        × ((check_password p req (some u) plain s).1.tenants ≡ s.tenants)
  unfolding check_password verify
  check_password-method req plain hashed u s answer method right =
      rw (check_password, method, verify, right) (refl, refl)

  -- What `login` reads of a new account.
  record Registered (email : Text) (hashed : String) (u : User) (s : State) : Type 0 where
    user : if_not_deleted (find_by_email p email s) ≡ some u
    method :
        p.db.find_first (is_password_of u.id) s.login_methods ≡ some (password_method u.id hashed)
    tenant :
        p.db.find_first (λ (n : Tenant). str_eq n.id u.tenant_id) s.tenants
        ≡ some (record { id = u.tenant_id; deleted_at = none })

  register-Registered :
      (req : Request) (email : Text) (plain : String) (name : Option Text) (s : State)
      → IsNew req email s
      → Registered
          (normalise_email email)
          (p.crypto.hash plain)
          (new_user req (normalise_email email) name)
          (register p req (λ x. x) email plain name s).1
  unfolding find_by_email
  register-Registered req email plain name s new =
      let e = normalise_email email in
      let u = new_user req e name in
      let s' = (register p req (λ x. x) email plain name s).1 in
      let hashed = p.crypto.hash plain in
      let fresh : find_by_email p e s ≡ none =
        p.db.find_first_lem (has_email e) s.users ∙ new.unregistered in
      let found : find_by_email p e s' ≡ some u =
        ap (p.db.find_first (has_email e)) (register-users req email plain name s fresh)
        ∙ found-created (has_email e) u s.users new.unregistered (text_eq_refl e) in
      record {
        user = ap if_not_deleted found;
        method =
            ap (p.db.find_first (is_password_of u.id))
              (register-login_methods req email plain name s fresh)
            ∙ found-created (is_password_of u.id) (password_method u.id hashed) s.login_methods
                new.no_method (rw (eq_refl u.id) refl);
        tenant =
            ap (p.db.find_first (λ (n : Tenant). str_eq n.id u.tenant_id))
              (register-tenants req email plain name s fresh)
            ∙ found-created (λ (n : Tenant). str_eq n.id u.tenant_id)
                (record { id = u.tenant_id; deleted_at = none }) s.tenants new.no_tenant
                (eq_refl u.tenant_id);
      }

  Registered-tenant_active :
      (email : Text) (hashed : String) (u : User) (s s' : State)
      → Registered email hashed u s
      → s'.tenants ≡ s.tenants
      → tenant_active p u.tenant_id s' ≡ true
  unfolding tenant_active
  Registered-tenant_active email hashed u s s' r same =
      let found = ap (p.db.find_first (λ (n : Tenant). str_eq n.id u.tenant_id)) same ∙ r.tenant in
      rw (tenant_active, found) refl

  -- A new account can log in at once: where the email is not registered and the ids of the new
  -- rows are not in use, `login` after `register`, with an email of the same normal form, answers
  -- with an access token for the new user when argon2 confirms the password, and with the refusal
  -- for wrong credentials when argon2 denies it.
  pub register-login :
      (req again : Request) (email typed : Text) (plain wrong : String) (name : Option Text)
      (s : State)
      → IsNew req email s
      → normalise_email typed ≡ normalise_email email
      → p.crypto.verify (p.crypto.hash plain) plain ≡ some true
      → p.crypto.verify (p.crypto.hash plain) wrong ≡ some false
      → (access_of (login p again typed plain (register p req (λ x. x) email plain name s).1).0
          ≡ some (p.crypto.sign (claims_of (new_user req (normalise_email email) name))))
        × ((login p again typed wrong (register p req (λ x. x) email plain name s).1).0
            ≡ err invalid_credentials)
  register-login req again email typed plain wrong name s new same right denied =
      let e = normalise_email email in
      let u = new_user req e name in
      let s' = (register p req (λ x. x) email plain name s).1 in
      let hashed = p.crypto.hash plain in
      let r = register-Registered req email plain name s new in
      let user = ap (λ (x : Text). if_not_deleted (find_by_email p x s')) same ∙ r.user in
      let accepted = check_password-method again plain hashed u s' true r.method right in
      let refused = check_password-method again wrong hashed u s' false r.method denied in
      let checked = check_password p again (some u) plain s' in
      (
        ap (λ (x : Result AuthTokens × State). access_of x.0)
              (login-unlocked again typed plain u s' user refl)
            ∙ settle_login-accepted again u checked accepted.0
                (Registered-tenant_active e hashed u s' checked.1 r accepted.1),
        ap (λ (x : Result AuthTokens × State). x.0)
              (login-unlocked again typed wrong u s' user refl)
            ∙ settle_login-refused again u (check_password p again (some u) wrong s') refused.0,
      )
