-- ===== src/Auth/Ledger/SingleUse.antt =====
-- modules/auth/token.service.ts: how often one refresh token is accepted over a history of calls.
use ai_search_api.Base.{
  ℕ, ◌+◌, ◌≤◌, String, ◌≡◌, refl, sym, inl, inr, Bool, false, ◌&&◌, List, [], ◌∷◌, arith, str_eq,
  eq_iff, if◌then◌else◌, Option-cases, first, count-first, first_sound,
}
use mathlib.Core.Path.{subst₂}
use ai_search_api.Auth.State.{State, Request, Platform}
use ai_search_api.Auth.Tokens.{has_hash}
use ai_search_api.Auth.Ledger.{
  Standing, unknown, live, spent, Ledger, spend, spend_of, ledger_of, IsTidy, is_active_account,
}
use ai_search_api.Auth.Ledger.Steps.{hash_of, IsFresh}
use ai_search_api.Auth.Ledger.Runs.{
  Call, sign_in, refresh, log_out, serve, book, IsFreshRun, serve-book,
}

abbrev allowance : Standing → ℕ
allowance unknown = 1
allowance (live user expiry) = 1
allowance (spent user expiry) = 0

data Stand (x : Standing) : Type 0 where
  is_unknown : x ≡ unknown → Stand x
  is_live : (user : String) (expiry : ℕ) → x ≡ live user expiry → Stand x
  is_spent : (user : String) (expiry : ℕ) → x ≡ spent user expiry → Stand x

stand : (x : Standing) → Stand x
stand unknown = is_unknown refl
stand (live user expiry) = is_live user expiry refl
stand (spent user expiry) = is_spent user expiry refl

allowance-spend : (x : Standing) → allowance (spend x) ≤ allowance x
allowance-spend unknown = omega arith
allowance-spend (live user expiry) = omega arith
allowance-spend (spent user expiry) = omega arith

allowance-spend_of : (user : String) (x : Standing) → allowance (spend_of user x) ≤ allowance x
allowance-spend_of user unknown = omega arith
allowance-spend_of user (live owner expiry) = ground arith
allowance-spend_of user (spent owner expiry) = omega arith

module _ (p : Platform) where
  -- The call is a refresh of the token `token`.
  abbrev pub presents : String → Call → Bool
  presents token (sign_in subject) = false
  presents token (refresh other) = str_eq (hash_of p other) (hash_of p token)
  presents token (log_out other) = false

  -- How many refreshes of the token succeed in a history.
  abbrev pub times_accepted : String → List (Request × Call) → State → ℕ
  times_accepted token [] s = 0
  times_accepted token ((req, c) ∷ calls) s =
      (if presents token c && (serve p req c s).0 then 1 else 0)
      + times_accepted token calls (serve p req c s).1

  book-allowance :
      (active : String → Bool) (token : String) (req : Request) (c : Call) (l : Ledger)
      → l (hash_of p req.random_token) ≡ unknown
      → (if presents token c && (book p active req c l).0 then 1 else 0)
          + allowance ((book p active req c l).1 (hash_of p token))
        ≤ allowance (l (hash_of p token))
  book-allowance active token req (sign_in subject) l fresh = elim (stand (l (hash_of p token))) [
    | is_unknown e ↦ ground (arith, e, eq_iff (hash_of p req.random_token) (hash_of p token))
    | is_live user expiry e ↦
        ground (arith, e, eq_iff (hash_of p req.random_token) (hash_of p token))
    | is_spent user expiry e ↦
        ground (arith, e, fresh, eq_iff (hash_of p req.random_token) (hash_of p token))
  ]
  book-allowance active token req (log_out other) l fresh =
      ground (arith, allowance-spend (l (hash_of p token)))
  book-allowance active token req (refresh other) l fresh =
      let k = hash_of p other in
      let h = hash_of p token in
      let f = hash_of p req.random_token in
      elim (stand (l (hash_of p other))) [
        | is_unknown e ↦ rw (e) (ground (arith, e))
        | is_live user expiry e ↦ elim (stand (l h)) [
          | is_unknown e' ↦ ground (arith, e, e', fresh, eq_iff f h, eq_iff k h)
          | is_live user' expiry' e' ↦ ground (arith, e, e', fresh, eq_iff f h, eq_iff k h)
          | is_spent user' expiry' e' ↦ ground (arith, e, e', fresh, eq_iff f h, eq_iff k h)
        ]
        | is_spent user expiry e ↦
            rw (e) (ground (arith, e, allowance-spend_of user (l (hash_of p token))))
      ]

  ledger_of-fresh :
      (req : Request) (s : State)
      → IsFresh p req s
      → ledger_of s.refresh_tokens (hash_of p req.random_token) ≡ unknown
  ledger_of-fresh req s fresh =
      elim (Option-cases (first (has_hash (hash_of p req.random_token)) s.refresh_tokens)) [
        | inl e ↦ rw e refl
        | inr (t, e) ↦ ground (
          arith,
          fresh.hash,
          count-first (has_hash (hash_of p req.random_token))
              (has_hash (hash_of p req.random_token)) s.refresh_tokens t e,
          first_sound (has_hash (hash_of p req.random_token)) s.refresh_tokens t e,
        )
      ]

  times_accepted-allowance :
      (token : String) (calls : List (Request × Call)) (s : State)
      → IsFreshRun p calls s
      → IsTidy s.refresh_tokens
      → times_accepted token calls s ≤ allowance (ledger_of s.refresh_tokens (hash_of p token))
  times_accepted-allowance token [] s fresh tidy = omega arith
  times_accepted-allowance token ((req, c) ∷ calls) s (fresh, later) tidy =
      let now = serve-book p req c s fresh tidy in
      let rest = times_accepted-allowance token calls (serve p req c s).1 later now.tidy in
      let step =
        subst₂
          (λ (b : Bool) (l : Ledger).
            (if presents token c && b then 1 else 0) + allowance (l (hash_of p token))
            ≤ allowance (ledger_of s.refresh_tokens (hash_of p token)))
          (sym now.answer) (sym now.ledger)
          (book-allowance (is_active_account s) token req c (ledger_of s.refresh_tokens)
            (ledger_of-fresh req s fresh)) in
      omega (arith, step, rest)

  -- Over any history of sign-ins, refreshes and logouts from a table with distinct ids and hashes,
  -- in which each request's random token and row id are new, a refresh token is accepted at most
  -- once.
  pub times_accepted-single :
      (token : String) (calls : List (Request × Call)) (s : State)
      → IsFreshRun p calls s
      → IsTidy s.refresh_tokens
      → times_accepted token calls s ≤ 1
  times_accepted-single token calls s fresh tidy =
      let bound = times_accepted-allowance token calls s fresh tidy in
      elim (stand (ledger_of s.refresh_tokens (hash_of p token))) [
        | is_unknown e ↦ ground (arith, e, bound)
        | is_live user expiry e ↦ ground (arith, e, bound)
        | is_spent user expiry e ↦ ground (arith, e, bound)
      ]
