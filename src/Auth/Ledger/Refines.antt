-- ===== src/Auth/Ledger/Refines.antt =====
-- modules/auth/token.service.ts: what it is for an operation on the table to do what one on the
-- ledger does, and the writes of which `rotate` is made.
use ai_search_api.Base.{
  ℕ, String, ◌≡◌, refl, ap, ◌∙◌, Bool, true, false, some, List, arith, str_eq, eq_refl, ◌==◌, first,
  count, change, count-first, count-change_same,
}
use ai_search_api.Base.Result.{Result, ok, err}
use ai_search_api.Base.Keys.{distinct-change}
use ai_search_api.Auth.State.{User, RefreshToken, State, AuthTokens, Request, Platform, is_null}
use ai_search_api.Auth.Tokens.{
  TokenSubject, subject_of, has_hash, is_unrevoked, belongs_unrevoked, as_revoked,
  create_refresh_token, issue, claim_token, revoke_all_for_user,
}
use ai_search_api.Auth.Ledger.{Ledger, enter, spend_at, spend_all, ledger_of, IsTidy, expiry_of}
use ai_search_api.Auth.Ledger.Steps.{
  ledger_of-revoke_all, ledger_of-claim, hash_of, IsFresh, issue-ledger,
}

abbrev pub is_accepted : {A : Type 0} → Result A → Bool
is_accepted (ok a) = true
is_accepted (err e) = false

-- A write that revokes rows leaves the table tidy.
pub revoked-IsTidy :
    (q : RefreshToken → Bool) (now : ℕ) (rows : List RefreshToken)
    → IsTidy rows
    → IsTidy (change q (as_revoked now) rows)
revoked-IsTidy q now rows tidy = record {
  ids = distinct-change (λ (t : RefreshToken). t.id) q (as_revoked now) (λ x. refl) rows ∙ tidy.ids;
  hashes =
      distinct-change (λ (t : RefreshToken). t.token_hash) q (as_revoked now) (λ x. refl) rows
      ∙ tidy.hashes;
}

module _ (p : Platform) (req : Request) where
  -- The operation on the table does what the one on the ledger does, and keeps what it rests on.
  pub record Refines (s : State) (outcome : Bool × Ledger) (r : Result AuthTokens) (s' : State)
      : Type 0 where
    pub answer : is_accepted r ≡ outcome.0
    pub ledger : ledger_of s'.refresh_tokens ≡ outcome.1
    pub tidy : IsTidy s'.refresh_tokens
    pub users : s'.users ≡ s.users
    pub tenants : s'.tenants ≡ s.tenants

  abbrev claimed : RefreshToken → State → State
  claimed t s = record s {
    refresh_tokens = change (is_unrevoked t.id) (as_revoked req.now) s.refresh_tokens;
  }

  claimed-IsFresh : (t : RefreshToken) (s : State) → IsFresh p req s → IsFresh p req (claimed t s)
  claimed-IsFresh t s fresh = record {
    id =
        count-change_same (λ (x : RefreshToken). str_eq x.id req.token_id) (is_unrevoked t.id)
          (as_revoked req.now) (λ x. refl) s.refresh_tokens
        ∙ fresh.id;
    hash =
        count-change_same (has_hash (hash_of p req.random_token)) (is_unrevoked t.id)
          (as_revoked req.now) (λ x. refl) s.refresh_tokens
        ∙ fresh.hash;
  }

  pub unchanged :
      (s : State)
      → IsTidy s.refresh_tokens
      → (r : Result AuthTokens) → is_accepted r ≡ false
      → Refines s (false, ledger_of s.refresh_tokens) r s
  unchanged s tidy r refused = record {
    answer = refused;
    ledger = refl;
    tidy = tidy;
    users = refl;
    tenants = refl;
  }

  pub issued :
      (subject : TokenSubject) (s : State)
      → (is_accepted (issue p req subject s).0 ≡ true)
        × ((issue p req subject s).1.users ≡ s.users)
        × ((issue p req subject s).1.tenants ≡ s.tenants)
  unfolding issue create_refresh_token
  issued subject s = (refl, refl, refl)

  pub claim_token-Refines :
      (h : String) (t : RefreshToken) (u : User) (s : State)
      → IsFresh p req s
      → IsTidy s.refresh_tokens
      → first (has_hash h) s.refresh_tokens ≡ some t
      → is_null t.revoked_at ≡ true
      → Refines s
          (
            true,
            enter
                (hash_of p req.random_token)
                u.id
                (expiry_of p req)
                (spend_at h (ledger_of s.refresh_tokens)),
          )
          (claim_token p req (λ x. x) t u s).0
          (claim_token p req (λ x. x) t u s).1
  unfolding claim_token
  claim_token-Refines h t u s fresh tidy found usable =
      let won : (count (is_unrevoked t.id) s.refresh_tokens == 0) ≡ false = ground (
        arith,
        count-first (has_hash h) (is_unrevoked t.id) s.refresh_tokens t found,
        eq_refl t.id,
      ) in
      let (entered, kept) =
        issue-ledger p req (subject_of u) (claimed t s) (claimed-IsFresh t s fresh)
          (revoked-IsTidy (is_unrevoked t.id) req.now s.refresh_tokens tidy) in
      let (answer, users, tenants) = issued (subject_of u) (claimed t s) in
      rw (p.db.update_many_lem, won)
        (record {
          answer = answer;
          ledger =
              entered
              ∙ ap (enter (hash_of p req.random_token) u.id (expiry_of p req))
                  (ledger_of-claim h req.now s.refresh_tokens t tidy.ids found);
          tidy = kept;
          users = users;
          tenants = tenants;
        })

  pub revoke_all-Refines :
      (user : String) (s : State) (r : Result AuthTokens)
      → IsTidy s.refresh_tokens
      → is_accepted r ≡ false
      → Refines s
          (false, spend_all user (ledger_of s.refresh_tokens))
          r
          (revoke_all_for_user p req user s)
  unfolding revoke_all_for_user
  revoke_all-Refines user s r tidy refused = rw p.db.update_many_lem (record {
    answer = refused;
    ledger = ledger_of-revoke_all user req.now s.refresh_tokens;
    tidy = revoked-IsTidy (belongs_unrevoked user) req.now s.refresh_tokens tidy;
    users = refl;
    tenants = refl;
  })
