-- ===== src/Auth/Ledger/Steps.antt =====
-- modules/auth/token.service.ts: each operation on the table is the operation on the ledger.
use ai_search_api.Base.{
  ℕ, String, ◌≡◌, refl, ap, ◌∙◌, inl, inr, Bool, true, ◌&&◌, none, some, List, [], ◌∷◌, ◌++◌, arith,
  str_eq, eq_iff, eq_refl, if◌then◌else◌, Option-cases, first, count, change, count-first,
  first_sound,
}
use mathlib.Core.Path.{fun_ext}
use ai_search_api.Base.Keys.{
  has_distinct_ids, on_some, first-same, distinct-append, first-change_all, first-append_all,
}
use ai_search_api.Auth.State.{Tenant, User, RefreshToken, State, Request, Platform, is_null}
use ai_search_api.Auth.Tokens.{
  TokenSubject, has_hash, is_unrevoked, belongs_unrevoked, as_revoked, create_refresh_token, issue,
  owner_of,
}
use ai_search_api.Auth.Tokens.Rotation.{new_token}
use ai_search_api.Auth.Ledger.{
  enter, spend_at, spend_all, standing, ledger_of, IsTidy, account_of, expiry_of,
}

-- A row that is added under a new hash.
pub ledger_of-append :
    (rows : List RefreshToken) (t : RefreshToken)
    → is_null t.revoked_at ≡ true
    → count (has_hash t.token_hash) rows ≡ 0
    → ledger_of (rows ++ t ∷ []) ≡ enter t.token_hash t.user_id t.expires_at (ledger_of rows)
ledger_of-append rows t usable fresh =
    fun_ext λ k. ap standing (first-append_all (has_hash k) rows t) ∙ entered k
  where
    entered :
        (k : String)
        → standing (elim (first (has_hash k) rows) [
          | none ↦ if has_hash k t then some t else none
          | some x ↦ some x
        ])
          ≡ enter t.token_hash t.user_id t.expires_at (ledger_of rows) k
    entered k = elim (Option-cases (first (has_hash k) rows)) [
      | inl e ↦ rw (e) (ground (arith, e))
      | inr (r, e) ↦ rw (e) (
          ground (
            arith,
            e,
            count-first (has_hash k) (has_hash t.token_hash) rows r,
            first_sound (has_hash k) rows r,
            eq_iff t.token_hash k,
            eq_iff r.token_hash k,
            eq_iff r.token_hash t.token_hash,
          ))
    ]

-- A write that revokes rows.
pub ledger_of-change :
    (p : RefreshToken → Bool) (now : ℕ) (rows : List RefreshToken) (k : String)
    → ledger_of (change p (as_revoked now) rows) k
      ≡ standing (on_some (λ t. if p t then as_revoked now t else t) (first (has_hash k) rows))
ledger_of-change p now rows k =
    ap standing (first-change_all (has_hash k) p (as_revoked now) (λ x. refl) rows)

-- The revocation of a user's tokens.
pub ledger_of-revoke_all :
    (user : String) (now : ℕ) (rows : List RefreshToken)
    → ledger_of (change (belongs_unrevoked user) (as_revoked now) rows)
      ≡ spend_all user (ledger_of rows)
ledger_of-revoke_all user now rows = fun_ext λ k.
    ledger_of-change (belongs_unrevoked user) now rows k
    ∙ elim (Option-cases (first (has_hash k) rows)) [
      | inl e ↦ rw (e) refl
      | inr (r, e) ↦ rw (e) (ground (arith, e))
    ]

-- The revocation of a presented token.
pub ledger_of-revoke :
    (h : String) (now : ℕ) (rows : List RefreshToken)
    → ledger_of (change (λ t. has_hash h t && is_null t.revoked_at) (as_revoked now) rows)
      ≡ spend_at h (ledger_of rows)
ledger_of-revoke h now rows = fun_ext λ k.
    ledger_of-change (λ t. has_hash h t && is_null t.revoked_at) now rows k
    ∙ elim (Option-cases (first (has_hash k) rows)) [
      | inl e ↦ rw (e) (ground (arith, e))
      | inr (r, e) ↦ rw (e) (
          ground (
            arith,
            e,
            first_sound (has_hash k) rows r,
            eq_iff h k,
            eq_iff r.token_hash k,
            eq_iff r.token_hash h,
          ))
    ]

-- The claim of the row that was presented: by its id.
pub ledger_of-claim :
    (h : String) (now : ℕ) (rows : List RefreshToken) (t : RefreshToken)
    → has_distinct_ids (λ (t : RefreshToken). t.id) rows ≡ true
    → first (has_hash h) rows ≡ some t
    → ledger_of (change (is_unrevoked t.id) (as_revoked now) rows) ≡ spend_at h (ledger_of rows)
ledger_of-claim h now rows t ids found = fun_ext λ k.
    ledger_of-change (is_unrevoked t.id) now rows k
    ∙ elim (Option-cases (first (has_hash k) rows)) [
      | inl e ↦ rw (e) (ground (arith, e))
      | inr (r, e) ↦ rw (e) (
          ground (
            arith,
            e,
            found,
            ids,
            first-same (λ (x : RefreshToken). x.id) (has_hash k) (has_hash h) rows r t,
            first_sound (has_hash k) rows r,
            first_sound (has_hash h) rows t,
            eq_iff r.token_hash k,
            eq_iff t.token_hash h,
            eq_iff h k,
            eq_refl t.id,
          ))
    ]

module _ (p : Platform) where
  abbrev pub hash_of : String → String
  hash_of presented = p.crypto.hash_token presented

  -- The new token has an id and a hash that the table has not.
  pub record IsFresh (req : Request) (s : State) : Type 0 where
    pub id : count (λ (t : RefreshToken). str_eq t.id req.token_id) s.refresh_tokens ≡ 0
    pub hash : count (has_hash (hash_of req.random_token)) s.refresh_tokens ≡ 0

  pub owner_of-account_of : (t : RefreshToken) (s : State) → owner_of p t s ≡ account_of s t.user_id
  unfolding owner_of
  owner_of-account_of t s =
      elim (Option-cases (first (λ (u : User). str_eq u.id t.user_id) s.users)) [
        | inl e ↦ rw (owner_of, p.db.find_first_lem, e) refl
        | inr (u, e) ↦
            elim (Option-cases (first (λ (n : Tenant). str_eq n.id u.tenant_id) s.tenants)) [
              | inl d ↦ rw (owner_of, p.db.find_first_lem, e, p.db.find_first_lem, d) refl
              | inr (n, d) ↦ rw (owner_of, p.db.find_first_lem, e, p.db.find_first_lem, d) refl
            ]
      ]

  pub account_of-id :
      (user : String) (s : State) (u : User) (n : Tenant)
      → account_of s user ≡ some (u, n)
      → u.id ≡ user
  account_of-id user s u n h =
      elim (Option-cases (first (λ (u : User). str_eq u.id user) s.users)) [
        | inl e ↦ ground (arith, e)
        | inr (v, e) ↦
            elim (Option-cases (first (λ (n : Tenant). str_eq n.id v.tenant_id) s.tenants)) [
              | inl d ↦ ground (arith, e, d)
              | inr (m, d) ↦ ground (
                arith,
                e,
                d,
                first_sound (λ (u : User). str_eq u.id user) s.users v,
                eq_iff v.id user,
              )
            ]
      ]

  -- Issuing a pair enters the new token as live.
  pub issue-ledger :
      (req : Request) (subject : TokenSubject) (s : State)
      → IsFresh req s
      → IsTidy s.refresh_tokens
      → (ledger_of (issue p req subject s).1.refresh_tokens
          ≡ enter
              (hash_of req.random_token)
              subject.id
              (expiry_of p req)
              (ledger_of s.refresh_tokens))
        × IsTidy (issue p req subject s).1.refresh_tokens
  unfolding issue create_refresh_token
  issue-ledger req subject s fresh tidy =
      let t = new_token p req subject.id in
      rw p.db.create_lem (
        ledger_of-append s.refresh_tokens t refl fresh.hash,
        record {
          ids = distinct-append (λ (x : RefreshToken). x.id) s.refresh_tokens t tidy.ids fresh.id;
          hashes =
              distinct-append (λ (x : RefreshToken). x.token_hash) s.refresh_tokens t tidy.hashes
                fresh.hash;
        },
      )
