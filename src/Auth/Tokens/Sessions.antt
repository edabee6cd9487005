-- ===== src/Auth/Tokens/Sessions.antt =====
-- The life of a refresh token of modules/auth/token.service.ts: issued, rotated, logged out,
-- purged.
use ai_search_api.Base.{
  ◌+◌, ◌*◌, ◌≤◌, String, ◌≡◌, refl, ap, ◌∙◌, ◌≢◌, Bool, true, false, not, ◌&&◌, some, List, [], ◌∷◌,
  arith, eq_refl, ltb, ◌==◌, length, first, keep, count, change, count-first, first-append_none,
  first-keep, count-keep,
}
use ai_search_api.Base.Result.{ok}
use ai_search_api.Auth.State.{
  Tenant, User, RefreshToken, State, AuthTokens, Request, Platform, is_null,
}
use ai_search_api.Auth.Tokens.{
  TokenSubject, subject_of, has_hash, is_unrevoked, as_revoked, create_refresh_token, issue,
  owner_of, is_active, claim_token, rotate_row, rotate, revoke, purge_stale, is_stale_token,
}
use ai_search_api.Auth.Tokens.Rotation.{presented_row, new_token, rotate-found, rotate-Rotated}

first-off :
    (q : RefreshToken → Bool) (f : RefreshToken → RefreshToken)
    → ((x : RefreshToken) → is_null (f x).revoked_at ≡ false)
    → (xs : List RefreshToken) (t : RefreshToken)
    → first q (change (λ x. q x && is_null x.revoked_at) f xs) ≡ some t
    → is_null t.revoked_at ≡ false
first-off q f off [] t h = cc
first-off q f off (x ∷ xs) t h = ground (arith, off x, first-off q f off xs t)

module _ (p : Platform) where
  issued_row :
      (req : Request) (subject : TokenSubject) (s : State)
      → count (has_hash (p.crypto.hash_token req.random_token)) s.refresh_tokens ≡ 0
      → presented_row p req.random_token (issue p req subject s).1
        ≡ some (new_token p req subject.id)
  unfolding issue create_refresh_token
  issued_row req subject s fresh = rw p.db.create_lem (
      first-append_none (has_hash (p.crypto.hash_token req.random_token)) s.refresh_tokens _ fresh
      ∙ ground (arith, eq_refl (p.crypto.hash_token req.random_token)))

  issue_ok :
      (req : Request) (subject : TokenSubject) (s : State)
      → (tokens : AuthTokens) × (s' : State) × (issue p req subject s ≡ (ok tokens, s'))
  unfolding issue
  issue_ok req subject s = (_, _, refl)

  claim_token-succeeds :
      (req : Request) (t : RefreshToken) (u : User) (s : State)
      → ltb 0 (count (is_unrevoked t.id) s.refresh_tokens) ≡ true
      → (tokens : AuthTokens) × (s' : State) × (claim_token p req (λ x. x) t u s ≡ (ok tokens, s'))
  unfolding claim_token
  claim_token-succeeds req t u s won =
      let some_left : (count (is_unrevoked t.id) s.refresh_tokens == 0) ≡ false = ground arith in
      rw (p.db.update_many_lem, some_left) (issue_ok req (subject_of u) _)

  owner_of-issue :
      (req : Request) (subject : TokenSubject) (t : RefreshToken) (s : State)
      → owner_of p t (issue p req subject s).1 ≡ owner_of p t s
  unfolding owner_of issue create_refresh_token
  owner_of-issue req subject t s = refl

  -- Issue, then refresh: a token that was just issued to a user who is active, in a tenant that is
  -- active, is accepted by the next rotation within its lifetime, if its hash is new to the table.
  pub issue-rotate :
      (req later : Request) (u : User) (n : Tenant) (s : State)
      → count (has_hash (p.crypto.hash_token req.random_token)) s.refresh_tokens ≡ 0
      → owner_of p (new_token p req u.id) s ≡ some (u, n)
      → is_active p (u, n) ≡ true
      → later.now ≤ req.now + p.config.refresh_token_ttl_days * 24 * 60 * 60 * 1000
      → (tokens : AuthTokens) × (s' : State) × (rotate p later
            (λ x. x)
            req.random_token
            (issue p req (subject_of u) s).1
          ≡ (ok tokens, s'))
  unfolding rotate_row
  issue-rotate req later u n s fresh owned active in_time =
      let t = new_token p req u.id in
      let s1 = (issue p req (subject_of u) s).1 in
      let listed = issued_row req (subject_of u) s fresh in
      let not_expired : ltb t.expires_at later.now ≡ false = ground arith in
      let won =
        count-first (has_hash (p.crypto.hash_token req.random_token)) (is_unrevoked t.id)
          s1.refresh_tokens t listed (ground (arith, eq_refl t.id)) in
      rw
        (
          rotate-found p later (λ x. x) req.random_token s1 t listed,
          not_expired,
          owner_of-issue req (subject_of u) t s,
          owned,
          active,
        )
        (claim_token-succeeds later t u s1 won)

  -- A row that is found after `revoke` is revoked.
  revoked_after :
      (req : Request) (presented : String) (s : State) (t : RefreshToken)
      → presented_row p presented (revoke p req presented s) ≡ some t
      → is_null t.revoked_at ≡ false
  unfolding revoke
  revoked_after req presented s t found =
      first-off (has_hash (p.crypto.hash_token presented)) (as_revoked req.now) (λ x. refl)
        s.refresh_tokens t (rw p.db.update_many_lem at found)

  -- Logging out: after `revoke` of a token, no rotation with it succeeds, at any time and whatever
  -- other requests do in between.
  pub revoke-rotate :
      (req later : Request) (others : State → State) (presented : String) (s s' : State)
      (tokens : AuthTokens)
      → rotate p later others presented (revoke p req presented s) ≢ (ok tokens, s')
  revoke-rotate req later others presented s s' tokens h =
      let r = rotate-Rotated p later others presented (revoke p req presented s) tokens s' h in
      ground (arith, r.unrevoked, revoked_after req presented s r.row r.found)

  -- The daily purge removes exactly the tokens that expired or were revoked more than seven days
  -- ago, and reports how many; a token that is not among them is found as before.
  pub purge_stale_exact :
      (req : Request) (s : State) (presented : String) (t : RefreshToken)
      → presented_row p presented s ≡ some t
      → is_stale_token p req.now t ≡ false
      → ((purge_stale p req s).1.refresh_tokens
          ≡ keep (λ t. not (is_stale_token p req.now t)) s.refresh_tokens)
        × ((purge_stale p req s).0 + length (purge_stale p req s).1.refresh_tokens
            ≡ length s.refresh_tokens)
        × (presented_row p presented (purge_stale p req s).1 ≡ some t)
  unfolding purge_stale
  purge_stale_exact req s presented t found usable = rw p.db.delete_many_lem (
    refl,
    count-keep (is_stale_token p req.now) s.refresh_tokens,
    first-keep (has_hash (p.crypto.hash_token presented)) (λ x. not (is_stale_token p req.now x))
        s.refresh_tokens t found (ap not usable),
  )
