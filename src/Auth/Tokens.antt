-- ===== src/Auth/Tokens.antt =====
-- modules/auth/token.service.ts, and core/jobs/refresh-token-cleanup.job.ts.
pub mod Rotation
pub mod Sessions
use ai_search_api.Base.{
  ℕ, ◌+◌, ◌-◌, ◌*◌, String, Bool, false, not, ◌&&◌, ◌||◌, Option, none, some, str_eq, ltb, ◌==◌,
  if◌then◌else◌,
}
use ai_search_api.Base.Result.{Thrown, http, failure, Result, ok, err}
use ai_search_api.Base.Text.{Text}
use ai_search_api.Auth.State.{
  Tenant, User, RefreshToken, State, JwtPayload, AuthTokens, Request, Platform, is_null,
}

pub record TokenSubject : Type 0 where
  pub id : String
  pub tenant_id : String
  pub email : Text

abbrev pub subject_of : User → TokenSubject
subject_of u = record { id = u.id; tenant_id = u.tenant_id; email = u.email }

abbrev pub invalid_refresh_token : Thrown
invalid_refresh_token = http 401 "Invalid refresh token"

abbrev pub has_hash : String → RefreshToken → Bool
has_hash h t = str_eq t.token_hash h

abbrev pub is_unrevoked : String → RefreshToken → Bool
is_unrevoked id t = str_eq t.id id && is_null t.revoked_at

abbrev pub belongs_unrevoked : String → RefreshToken → Bool
belongs_unrevoked user t = str_eq t.user_id user && is_null t.revoked_at

abbrev pub as_revoked : ℕ → RefreshToken → RefreshToken
as_revoked now t = record t { revoked_at = some now }

module _ (p : Platform) where
  unfoldable pub create_refresh_token : Request → String → State → String × State
  create_refresh_token req user_id s = (
    req.random_token,
    record s {
      refresh_tokens =
          p.db.create
            (record {
              id = req.token_id;
              user_id = user_id;
              token_hash = p.crypto.hash_token req.random_token;
              expires_at = req.now + p.config.refresh_token_ttl_days * 24 * 60 * 60 * 1000;
              revoked_at = none;
            })
            s.refresh_tokens;
    },
  )

  unfoldable pub issue : Request → TokenSubject → State → Result AuthTokens × State
  unfolding create_refresh_token
  issue req subject s =
      let payload : JwtPayload = record {
        sub = subject.id;
        tenant_id = subject.tenant_id;
        email = subject.email;
      } in
      let (refresh, s') = create_refresh_token req subject.id s in
      (
        ok (record {
          access_token = p.crypto.sign payload;
          refresh_token = refresh;
          token_type = "Bearer";
          expires_in = p.config.jwt_access_ttl_seconds;
        }),
        s',
      )

  unfoldable pub revoke_all_for_user : Request → String → State → State
  revoke_all_for_user req user_id s = record s {
    refresh_tokens =
        (p.db.update_many (belongs_unrevoked user_id) (as_revoked req.now) s.refresh_tokens).0;
  }

  -- `include: { user: { include: { tenant: true } } }`; both relations are required columns.
  unfoldable pub owner_of : RefreshToken → State → Option (User × Tenant)
  owner_of t s = elim (p.db.find_first (λ (u : User). str_eq u.id t.user_id) s.users) [
    | none ↦ none
    | some u ↦ elim (p.db.find_first (λ (n : Tenant). str_eq n.id u.tenant_id) s.tenants) [
      | none ↦ none
      | some n ↦ some (u, n)
    ]
  ]

  abbrev pub is_active : User × Tenant → Bool
  is_active (u, n) = is_null u.deleted_at && is_null n.deleted_at

  -- The atomic claim, and the new pair for the one who wins it. `others` is what other requests do
  -- between the read and the claim.
  unfoldable pub claim_token :
      Request → (State → State) → RefreshToken → User → State → Result AuthTokens × State
  unfolding issue
  claim_token req others t u s =
      let (rows, changed) =
        p.db.update_many (is_unrevoked t.id) (as_revoked req.now) (others s).refresh_tokens in
      let s' : State = record (others s) { refresh_tokens = rows } in
      if changed == 0 then (err invalid_refresh_token, s') else issue req (subject_of u) s'

  -- What follows the read of the row.
  unfoldable pub rotate_row :
      Request → (State → State) → RefreshToken → State → Result AuthTokens × State
  unfolding owner_of claim_token revoke_all_for_user
  rotate_row req others t s =
      if ltb t.expires_at req.now
      then (err invalid_refresh_token, s)
      else if not (is_null t.revoked_at)
      then (err invalid_refresh_token, revoke_all_for_user req t.user_id s)
      else elim (owner_of t s) [
        | none ↦ (err (failure "Missing relation"), s)
        | some (u, n) ↦
            if is_active (u, n)
            then claim_token req others t u s
            else (err invalid_refresh_token, s)
      ]

  unfoldable pub rotate : Request → (State → State) → String → State → Result AuthTokens × State
  unfolding rotate_row
  rotate req others presented s =
      elim (p.db.find_first (has_hash (p.crypto.hash_token presented)) s.refresh_tokens) [
        | none ↦ (err invalid_refresh_token, s)
        | some t ↦ rotate_row req others t s
      ]

  unfoldable pub revoke : Request → String → State → State
  revoke req presented s = record s {
    refresh_tokens =
        (p.db.update_many (λ t. has_hash (p.crypto.hash_token presented) t && is_null t.revoked_at)
          (as_revoked req.now) s.refresh_tokens).0;
  }

  -- `revokedAt < grace`, which a null does not meet.
  abbrev pub before : Option ℕ → ℕ → Bool
  before none limit = false
  before (some time) limit = ltb time limit

  abbrev pub is_stale_token : ℕ → RefreshToken → Bool
  is_stale_token now t = ltb t.expires_at now || before t.revoked_at (now - 7 * 24 * 60 * 60 * 1000)

  -- The daily purge; the number is what the job logs.
  unfoldable pub purge_stale : Request → State → ℕ × State
  purge_stale req s =
      let (rows, removed) = p.db.delete_many (is_stale_token req.now) s.refresh_tokens in
      (removed, record s { refresh_tokens = rows })
