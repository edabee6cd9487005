-- ===== src/Auth/Accepted.antt =====
-- modules/auth/auth.service.ts: whom `login` lets in, and as whom the routes then take them.
use ai_search_api.Base.{
  ℕ, String, ◌≡◌, refl, sym, ap, ◌∙◌, inl, inr, Bool, true, false, Option, none, some, ◌++◌, arith,
  if◌then◌else◌, Bool-cases, Option-cases,
}
use ai_search_api.Base.Result.{ok}
use ai_search_api.Base.Text.{Text, codes}
use ai_search_api.Auth.State.{User, LoginMethod, State, AuthTokens, Request, Platform, is_null}
use ai_search_api.Auth.Passwords.{verify, verify_dummy}
use ai_search_api.Auth.Access.{AuthenticatedUser}
use ai_search_api.Auth.Registration.{claims_of}
use ai_search_api.Auth.Service.{
  if_not_deleted, normalise_email, lock_of, is_locked, check_password, settle_login, complete_login,
  tenant_active, login, is_password_of,
}
use ai_search_api.Users.{find_by_email}

-- The `Authorization` header that a client sends with an access token.
abbrev pub bearer : String → Text
bearer token = codes "Bearer " ++ codes token

-- The account as the routes see it.
abbrev pub signed_in_as : User → AuthenticatedUser
signed_in_as u = record { user_id = u.id; tenant_id = u.tenant_id; email = u.email }

module _ (p : Platform) (req : Request) (email : Text) (plain : String) (s : State) where
  -- The account was looked up by the email, was neither deleted nor locked, has a password that
  -- argon2 confirmed, and a tenant that is not deleted.
  pub record Accepted (tokens : AuthTokens) : Type 0 where
    pub user : User
    pub method : LoginMethod
    pub hashed : String
    pub found : find_by_email p (normalise_email email) s ≡ some user
    pub present : user.deleted_at ≡ none
    pub unlocked : is_locked req.now user.locked_until ≡ false
    pub chosen : p.db.find_first (is_password_of user.id) s.login_methods ≡ some method
    pub stored : method.password_hash ≡ some hashed
    pub confirmed : p.crypto.verify hashed plain ≡ some true
    pub active : tenant_active p user.tenant_id s ≡ true
    pub token : tokens.access_token ≡ p.crypto.sign (claims_of user)
    pub expires : tokens.expires_in ≡ p.config.jwt_access_ttl_seconds

  if_not_deleted-some :
      (o : Option User) (u : User)
      → if_not_deleted o ≡ some u
      → (o ≡ some u) × (u.deleted_at ≡ none)
  if_not_deleted-some none u h = cc
  if_not_deleted-some (some v) u h = elim (Option-cases v.deleted_at) [
    | inl e ↦
        let both : some v ≡ some u =
          sym (ap (λ (d : Option ℕ). if is_null d then some v else none) e) ∙ h in
        let same : v ≡ u = cc in (both, ap (λ (x : User). x.deleted_at) (sym same) ∙ e)
    | inr (t, e) ↦
        let both : none ≡ some u =
          sym (ap (λ (d : Option ℕ). if is_null d then some v else none) e) ∙ h in
        absurd (ground (arith, both))
  ]

  -- What a confirmed password tells, and what the check leaves alone.
  check_password-confirmed :
      (u : User)
      → (check_password p req (some u) plain s).0 ≡ true
      → (m : LoginMethod) × (hashed : String) × (p.db.find_first
            (is_password_of u.id)
            s.login_methods
          ≡ some m)
        × (m.password_hash ≡ some hashed)
        × (p.crypto.verify hashed plain ≡ some true)
        × ((check_password p req (some u) plain s).1.tenants ≡ s.tenants)
  unfolding check_password verify verify_dummy
  check_password-confirmed u h =
      elim (Option-cases (p.db.find_first (is_password_of u.id) s.login_methods)) [
        | inl e ↦ absurd (ground (arith, e, h))
        | inr (m, e) ↦ elim (Option-cases m.password_hash) [
          | inl k ↦ absurd (ground (arith, e, k, h))
          | inr (hashed, k) ↦ elim (Option-cases (p.crypto.verify hashed plain)) [
            | inl r ↦ absurd (ground (arith, e, k, r, h))
            | inr (b, r) ↦ (
              m,
              hashed,
              e,
              k,
              let same : b ≡ true = rw (check_password, e, k, verify, r) at h in r ∙ ap some same,
              rw (check_password, e, k, verify, r) refl,
            )
          ]
        ]
      ]

  settle_login-ok :
      (o : Option User) (c : Bool × State) (tokens : AuthTokens)
      → (settle_login p req o c).0 ≡ ok tokens
      → (u : User) × (o ≡ some u)
        × (c.0 ≡ true)
        × (tenant_active p u.tenant_id c.1 ≡ true)
        × (tokens.access_token ≡ p.crypto.sign (claims_of u))
        × (tokens.expires_in ≡ p.config.jwt_access_ttl_seconds)
  unfolding settle_login complete_login
  settle_login-ok none (b, s1) tokens h = absurd (ground (arith, h))
  settle_login-ok (some u) (false, s1) tokens h = absurd (ground (arith, h))
  settle_login-ok (some u) (true, s1) tokens h =
      elim (Bool-cases (tenant_active p u.tenant_id s1)) [
        | inl a ↦ let given = rw (complete_login, a) at h in (u, refl, refl, a, cc, cc)
        | inr a ↦ let refused = rw (complete_login, a) at h in absurd (ground (arith, refused))
      ]

  tenant_active-same :
      (id : String) (s1 : State)
      → s1.tenants ≡ s.tenants
      → tenant_active p id s1 ≡ tenant_active p id s
  unfolding tenant_active
  tenant_active-same id s1 same = rw same refl

  pub login-Accepted :
      (tokens : AuthTokens) → (login p req email plain s).0 ≡ ok tokens → Accepted tokens
  unfolding login
  login-Accepted tokens h =
      let o = if_not_deleted (find_by_email p (normalise_email email) s) in
      elim (Bool-cases (is_locked req.now (lock_of p o))) [
        | inl l ↦ let refused = rw (login, l) at h in absurd (ground (arith, refused))
        | inr l ↦
            let settled : (settle_login p req o (check_password p req o plain s)).0 ≡ ok tokens =
              rw (login, l) at h in
            let (u, who, confirmed, active, token, expires) =
              settle_login-ok o (check_password p req o plain s) tokens settled in
            let (found, present) =
              if_not_deleted-some (find_by_email p (normalise_email email) s) u who in
            let (m, hashed, chosen, stored, right, same) =
              check_password-confirmed u (rw who at confirmed) in
            record {
              user = u;
              method = m;
              hashed = hashed;
              found = found;
              present = present;
              unlocked = ap (λ (x : Option User). is_locked req.now (lock_of p x)) (sym who) ∙ l;
              chosen = chosen;
              stored = stored;
              confirmed = right;
              active =
                  sym
                    (tenant_active-same u.tenant_id (check_password p req (some u) plain s).1 same)
                  ∙ rw who at active;
              token = token;
              expires = expires;
            }
      ]
