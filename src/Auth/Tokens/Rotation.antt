-- ===== src/Auth/Tokens/Rotation.antt =====
-- Refresh tokens of modules/auth/token.service.ts: single use, reuse detection, revocation.
use ai_search_api.Base.{
  ◌+◌, ◌*◌, ◌≤◌, ◌<◌, String, ◌≡◌, refl, ap, ◌∙◌, inl, inr, true, false, Option, none, some, [],
  ◌∷◌, ◌++◌, arith, eq_refl, ltb, if◌then◌else◌, Option-cases, first, count, change, change-none,
  first-change, first-append, count-change,
}
use ai_search_api.Base.Result.{ok, err}
use ai_search_api.Auth.State.{
  Tenant, User, RefreshToken, State, AuthTokens, Request, Platform, is_null,
}
use ai_search_api.Auth.Tokens.{
  invalid_refresh_token, has_hash, is_unrevoked, belongs_unrevoked, as_revoked, revoke_all_for_user,
  owner_of, is_active, claim_token, rotate_row, rotate,
}

module _ (p : Platform) where
  abbrev pub new_token : Request → String → RefreshToken
  new_token req user_id = record {
    id = req.token_id;
    user_id = user_id;
    token_hash = p.crypto.hash_token req.random_token;
    expires_at = req.now + p.config.refresh_token_ttl_days * 24 * 60 * 60 * 1000;
    revoked_at = none;
  }

  abbrev pub presented_row : String → State → Option RefreshToken
  presented_row presented s = first (has_hash (p.crypto.hash_token presented)) s.refresh_tokens

  -- All that holds when a rotation succeeds.
  pub record Rotated (req : Request) (others : State → State) (presented : String) (s : State)
      (tokens : AuthTokens) (s' : State) : Type 0 where
    pub row : RefreshToken
    pub user : User
    pub tenant : Tenant
    pub found : presented_row presented s ≡ some row
    pub unexpired : req.now ≤ row.expires_at
    pub unrevoked : is_null row.revoked_at ≡ true
    pub owned : owner_of p row s ≡ some (user, tenant)
    pub active : is_active p (user, tenant) ≡ true
    pub won : 0 < count (is_unrevoked row.id) (others s).refresh_tokens
    pub returned : tokens.refresh_token ≡ req.random_token
    pub written :
        s'.refresh_tokens
        ≡ change (is_unrevoked row.id) (as_revoked req.now) (others s).refresh_tokens
          ++ new_token req user.id ∷ []

  module _ (req : Request) (others : State → State) (presented : String) (s : State) where
    claim_token-ok :
        (t : RefreshToken) (u : User) (tokens : AuthTokens) (s' : State)
        → claim_token p req others t u s ≡ (ok tokens, s')
        → (0 < count (is_unrevoked t.id) (others s).refresh_tokens)
          × (tokens.refresh_token ≡ req.random_token)
          × (s'.refresh_tokens
              ≡ change (is_unrevoked t.id) (as_revoked req.now) (others s).refresh_tokens
                ++ new_token req u.id ∷ [])
    unfolding claim_token
    claim_token-ok t u tokens s' h = ground (
      arith,
      p.db.update_many_lem (is_unrevoked t.id) (as_revoked req.now) (others s).refresh_tokens,
      p.db.create_lem (new_token req u.id)
          (change (is_unrevoked t.id) (as_revoked req.now) (others s).refresh_tokens),
    )

    rotate_row-ok :
        (t : RefreshToken) (tokens : AuthTokens) (s' : State)
        → presented_row presented s ≡ some t
        → rotate_row p req others t s ≡ (ok tokens, s')
        → Rotated req others presented s tokens s'
    unfolding rotate_row
    rotate_row-ok t tokens s' found h = elim (Option-cases (owner_of p t s)) [
      | inl e ↦ absurd (ground arith)
      | inr ((u, n), e) ↦
          let claimed : claim_token p req others t u s ≡ (ok tokens, s') = ground arith in
          let (won, returned, written) = claim_token-ok t u tokens s' claimed in
          record {
            row = t;
            user = u;
            tenant = n;
            found = found;
            unexpired = ground arith;
            unrevoked = ground arith;
            owned = e;
            active = ground arith;
            won = won;
            returned = returned;
            written = written;
          }
    ]

    -- A rotation succeeds only for a stored token that is neither expired nor revoked, of a user
    -- and a tenant that are not deleted, and only if the token was still unrevoked when it was
    -- claimed, after whatever other requests did in between. Then the token is revoked, and one new
    -- token of the same user, stored under the hash of the one that is returned, is added; no other
    -- token of the table changes.
    pub rotate-Rotated :
        (tokens : AuthTokens) (s' : State)
        → rotate p req others presented s ≡ (ok tokens, s')
        → Rotated req others presented s tokens s'
    unfolding rotate
    rotate-Rotated tokens s' h = elim (Option-cases (presented_row presented s)) [
      | inl e ↦ absurd (
          ground (
            arith,
            p.db.find_first_lem (has_hash (p.crypto.hash_token presented)) s.refresh_tokens,
          ))
      | inr (t, e) ↦ rotate_row-ok t tokens s' e (
          ground (
            arith,
            p.db.find_first_lem (has_hash (p.crypto.hash_token presented)) s.refresh_tokens,
          ))
    ]

    pub rotate-found :
        (t : RefreshToken)
        → presented_row presented s ≡ some t
        → rotate p req others presented s ≡ rotate_row p req others t s
    unfolding rotate
    rotate-found t e = rw (p.db.find_first_lem, e, rotate) refl

  -- A request that loses the race for a token (it read the token as usable, and another request
  -- revoked it before the claim) is refused, and leaves everything as the others left it: no second
  -- pair is issued, and the family of the user is not revoked.
  pub rotate-lost :
      (req : Request) (others : State → State) (presented : String) (s : State) (t : RefreshToken)
      (u : User) (n : Tenant)
      → presented_row presented s ≡ some t
      → req.now ≤ t.expires_at
      → is_null t.revoked_at ≡ true
      → owner_of p t s ≡ some (u, n)
      → is_active p (u, n) ≡ true
      → count (is_unrevoked t.id) (others s).refresh_tokens ≡ 0
      → rotate p req others presented s ≡ (err invalid_refresh_token, others s)
  unfolding rotate_row claim_token
  rotate-lost req others presented s t u n found unexpired unrevoked owned active lost =
      let not_expired : ltb t.expires_at req.now ≡ false = ground arith in
      rotate-found req others presented s t found
      ∙ rw
          (
            not_expired,
            unrevoked,
            owned,
            active,
            p.db.update_many_lem,
            lost,
            change-none (is_unrevoked t.id) (as_revoked req.now) (others s).refresh_tokens lost,
          )
          refl

  revoked_row :
      (req : Request) (presented : String) (s s' : State) (tokens : AuthTokens) (t : RefreshToken)
      → Rotated req (λ x. x) presented s tokens s'
      → presented_row presented s ≡ some t
      → presented_row presented s' ≡ some (as_revoked req.now t)
  revoked_row req presented s s' tokens t r found =
      let same : r.row ≡ t = cc (r.found) in
      let mine : is_unrevoked t.id t ≡ true = ground (arith, r.unrevoked, same, eq_refl t.id) in
      rw (r.written, same)
        (first-append (has_hash (p.crypto.hash_token presented)) _ _ (as_revoked req.now t) (
          first-change (has_hash (p.crypto.hash_token presented)) (is_unrevoked t.id)
            (as_revoked req.now) (λ x. refl) s.refresh_tokens t found
          ∙ ap (λ b. some (if b then as_revoked req.now t else t)) mine))

  -- Reuse detection. After a rotation that succeeded, presenting the same token again before it
  -- expires is refused, and no token of its user is left unrevoked, the new one included.
  pub rotate-reuse :
      (req again : Request) (others : State → State) (presented : String) (s s' : State)
      (tokens : AuthTokens) (t : RefreshToken)
      → rotate p req (λ x. x) presented s ≡ (ok tokens, s')
      → presented_row presented s ≡ some t
      → again.now ≤ t.expires_at
      → ((rotate p again others presented s').0 ≡ err invalid_refresh_token)
        × (count (belongs_unrevoked t.user_id) (rotate p again others presented s').1.refresh_tokens
            ≡ 0)
  unfolding rotate_row revoke_all_for_user
  rotate-reuse req again others presented s s' tokens t h found fresh =
      let not_expired : ltb t.expires_at again.now ≡ false = ground arith in
      rw
        (
          rotate-found again others presented s' (as_revoked req.now t) (
              revoked_row req presented s s' tokens t
                (rotate-Rotated req (λ x. x) presented s tokens s' h) found),
          not_expired,
          p.db.update_many_lem,
        )
        (
          refl,
          count-change (belongs_unrevoked t.user_id) (as_revoked again.now) (λ x e. ground arith)
              s'.refresh_tokens,
        )
