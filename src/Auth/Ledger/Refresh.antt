-- ===== src/Auth/Ledger/Refresh.antt =====
-- modules/auth/token.service.ts: `rotate` and `revoke` on the table are those on the ledger.
use ai_search_api.Base.{
  String, ◌≡◌, refl, sym, ◌∙◌, inl, inr, Bool, true, false, ◌&&◌, none, some, ltb, Bool-cases,
  Option-cases, first,
}
use mathlib.Core.Path.{subst}
use ai_search_api.Base.Result.{err}
use ai_search_api.Auth.State.{RefreshToken, State, Request, Platform, is_null}
use ai_search_api.Auth.Tokens.{
  TokenSubject, invalid_refresh_token, has_hash, issue, owner_of, is_active, claim_token,
  rotate_row, rotate, revoke,
}
use ai_search_api.Auth.Tokens.Rotation.{rotate-found}
use ai_search_api.Auth.Ledger.{
  Ledger, enter, spend_at, refresh_at, ledger_of, IsTidy, account_of, is_active_account, expiry_of,
}
use ai_search_api.Auth.Ledger.Steps.{
  ledger_of-revoke, hash_of, IsFresh, owner_of-account_of, account_of-id, issue-ledger,
}
use ai_search_api.Auth.Ledger.Refines.{
  revoked-IsTidy, Refines, unchanged, issued, claim_token-Refines, revoke_all-Refines,
}

module _ (p : Platform) (req : Request) where
  abbrev pub refreshed : String → State → Bool × Ledger
  refreshed h s =
      refresh_at req.now h (hash_of p req.random_token) (expiry_of p req) (is_active_account s)
        (ledger_of s.refresh_tokens)

  rotate_live-Refines :
      (h : String) (t : RefreshToken) (s : State)
      → IsFresh p req s
      → IsTidy s.refresh_tokens
      → first (has_hash h) s.refresh_tokens ≡ some t
      → is_null t.revoked_at ≡ true
      → ltb t.expires_at req.now ≡ false
      → Refines p req s
          (refreshed h s)
          (rotate_row p req (λ x. x) t s).0
          (rotate_row p req (λ x. x) t s).1
  unfolding rotate_row
  rotate_live-Refines h t s fresh tidy found usable in_time = elim (Option-cases (owner_of p t s)) [
    | inl e ↦
        let gone : account_of s t.user_id ≡ none = sym (owner_of-account_of p t s) ∙ e in
        rw (found, usable, in_time, e, gone) (unchanged p req s tidy (err _) refl)
    | inr ((u, n), e) ↦
        let owned : account_of s t.user_id ≡ some (u, n) = sym (owner_of-account_of p t s) ∙ e in
        elim (Bool-cases (is_active p (u, n))) [
          | inl a ↦
              rw (found, usable, in_time, e, owned, a)
                (subst
                  (λ (x : String).
                    Refines p req s
                      (
                        true,
                        enter (hash_of p req.random_token) x (expiry_of p req)
                            (spend_at h (ledger_of s.refresh_tokens)),
                      )
                      (claim_token p req (λ x. x) t u s).0 (claim_token p req (λ x. x) t u s).1)
                  (account_of-id p t.user_id s u n owned)
                  (claim_token-Refines p req h t u s fresh tidy found usable))
          | inr a ↦ rw (found, usable, in_time, e, owned, a) (unchanged p req s tidy (err _) refl)
        ]
  ]

  rotate_row-Refines :
      (h : String) (t : RefreshToken) (s : State)
      → IsFresh p req s
      → IsTidy s.refresh_tokens
      → first (has_hash h) s.refresh_tokens ≡ some t
      → Refines p req s
          (refreshed h s)
          (rotate_row p req (λ x. x) t s).0
          (rotate_row p req (λ x. x) t s).1
  unfolding rotate_row
  rotate_row-Refines h t s fresh tidy found = elim (Bool-cases (ltb t.expires_at req.now)) [
    | inl late ↦ elim (Bool-cases (is_null t.revoked_at)) [
      | inl usable ↦ rw (found, usable, late) (unchanged p req s tidy (err _) refl)
      | inr used ↦ rw (found, used, late) (unchanged p req s tidy (err _) refl)
    ]
    | inr in_time ↦ elim (Bool-cases (is_null t.revoked_at)) [
      | inl usable ↦ rotate_live-Refines h t s fresh tidy found usable in_time
      | inr used ↦
          rw (found, used, in_time) (revoke_all-Refines p req t.user_id s (err _) tidy refl)
    ]
  ]

  rotate-missing :
      (presented : String) (s : State)
      → first (has_hash (p.crypto.hash_token presented)) s.refresh_tokens ≡ none
      → rotate p req (λ x. x) presented s ≡ (err invalid_refresh_token, s)
  unfolding rotate
  rotate-missing presented s e = rw (p.db.find_first_lem, e, rotate) refl

  pub rotate-Refines :
      (presented : String) (s : State)
      → IsFresh p req s
      → IsTidy s.refresh_tokens
      → Refines p req s
          (refreshed (hash_of p presented) s)
          (rotate p req (λ x. x) presented s).0
          (rotate p req (λ x. x) presented s).1
  rotate-Refines presented s fresh tidy =
      elim (Option-cases (first (has_hash (hash_of p presented)) s.refresh_tokens)) [
        | inl e ↦ rw (rotate-missing presented s e, e) (unchanged p req s tidy (err _) refl)
        | inr (t, e) ↦
            rw (rotate-found p req (λ x. x) presented s t e)
              (rotate_row-Refines (hash_of p presented) t s fresh tidy e)
      ]

  pub issue-Refines :
      (subject : TokenSubject) (s : State)
      → IsFresh p req s
      → IsTidy s.refresh_tokens
      → Refines p req s
          (
            true,
            enter
                (hash_of p req.random_token)
                subject.id
                (expiry_of p req)
                (ledger_of s.refresh_tokens),
          )
          (issue p req subject s).0
          (issue p req subject s).1
  issue-Refines subject s fresh tidy =
      let (entered, kept) = issue-ledger p req subject s fresh tidy in
      let (answer, users, tenants) = issued p req subject s in
      record { answer = answer; ledger = entered; tidy = kept; users = users; tenants = tenants }

  pub revoke-ledger :
      (presented : String) (s : State)
      → IsTidy s.refresh_tokens
      → (ledger_of (revoke p req presented s).refresh_tokens
          ≡ spend_at (hash_of p presented) (ledger_of s.refresh_tokens))
        × IsTidy (revoke p req presented s).refresh_tokens
        × ((revoke p req presented s).users ≡ s.users)
        × ((revoke p req presented s).tenants ≡ s.tenants)
  unfolding revoke
  revoke-ledger presented s tidy = rw p.db.update_many_lem (
    ledger_of-revoke (hash_of p presented) req.now s.refresh_tokens,
    revoked-IsTidy (λ t. has_hash (hash_of p presented) t && is_null t.revoked_at) req.now
        s.refresh_tokens tidy,
    refl,
    refl,
  )
