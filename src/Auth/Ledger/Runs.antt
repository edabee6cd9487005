-- ===== src/Auth/Ledger/Runs.antt =====
-- modules/auth/token.service.ts over a history of calls: sign-ins, refreshes and logouts, each at
-- the clock and the random values of its own request, one after the other.
use ai_search_api.Base.{String, ◌≡◌, refl, Bool, true, false, List, [], ◌∷◌, str_eq, first}
use mathlib.Core.Path.{subst₂}
use ai_search_api.Auth.State.{User, State, Request, Platform}
use ai_search_api.Auth.Tokens.{TokenSubject, issue, rotate, revoke}
use ai_search_api.Auth.Ledger.{
  Ledger, enter, spend_at, refresh_at, ledger_of, IsTidy, with_tenant_in, is_active_pair,
  is_active_account, expiry_of,
}
use ai_search_api.Auth.Ledger.Steps.{hash_of, IsFresh}
use ai_search_api.Auth.Ledger.Refines.{is_accepted}
use ai_search_api.Auth.Ledger.Refresh.{rotate-Refines, issue-Refines, revoke-ledger}

pub data Call : Type 0 where
  sign_in : TokenSubject → Call
  refresh log_out : String → Call

module _ (p : Platform) where
  -- The call on the table: whether tokens are given, and the state after it.
  abbrev pub serve : Request → Call → State → Bool × State
  serve req (sign_in subject) s = (is_accepted (issue p req subject s).0, (issue p req subject s).1)
  serve req (refresh token) s =
      (is_accepted (rotate p req (λ x. x) token s).0, (rotate p req (λ x. x) token s).1)
  serve req (log_out token) s = (false, revoke p req token s)

  abbrev pub serve_all : List (Request × Call) → State → List Bool × State
  serve_all [] s = ([], s)
  serve_all ((req, c) ∷ calls) s =
      let rest = serve_all calls (serve req c s).1 in ((serve req c s).0 ∷ rest.0, rest.1)

  -- The same on the ledger. `active` tells which accounts are.
  abbrev pub book : (String → Bool) → Request → Call → Ledger → Bool × Ledger
  book active req (sign_in subject) l =
      (true, enter (hash_of p req.random_token) subject.id (expiry_of p req) l)
  book active req (refresh token) l =
      refresh_at req.now (hash_of p token) (hash_of p req.random_token) (expiry_of p req) active l
  book active req (log_out token) l = (false, spend_at (hash_of p token) l)

  abbrev pub book_all : (String → Bool) → List (Request × Call) → Ledger → List Bool × Ledger
  book_all active [] l = ([], l)
  book_all active ((req, c) ∷ calls) l =
      let rest = book_all active calls (book active req c l).1 in
      ((book active req c l).0 ∷ rest.0, rest.1)

  -- The random values of each request are new when it is served.
  abbrev pub IsFreshRun : List (Request × Call) → State → Type 0
  IsFreshRun [] s = Unit
  IsFreshRun ((req, c) ∷ calls) s = IsFresh p req s × IsFreshRun calls (serve req c s).1

  pub record Served (s : State) (outcome : Bool × Ledger) (r : Bool × State) : Type 0 where
    pub answer : r.0 ≡ outcome.0
    pub ledger : ledger_of r.1.refresh_tokens ≡ outcome.1
    pub tidy : IsTidy r.1.refresh_tokens
    pub active : is_active_account r.1 ≡ is_active_account s

  same_accounts :
      (s s' : State)
      → s'.users ≡ s.users
      → s'.tenants ≡ s.tenants
      → is_active_account s' ≡ is_active_account s
  same_accounts s s' users tenants = λ i user.
      is_active_pair (with_tenant_in (tenants i) (first (λ (u : User). str_eq u.id user) (users i)))

  pub serve-book :
      (req : Request) (c : Call) (s : State)
      → IsFresh p req s
      → IsTidy s.refresh_tokens
      → Served s (book (is_active_account s) req c (ledger_of s.refresh_tokens)) (serve req c s)
  serve-book req (sign_in subject) s fresh tidy =
      let r = issue-Refines p req subject s fresh tidy in
      record {
        answer = r.answer;
        ledger = r.ledger;
        tidy = r.tidy;
        active = same_accounts s (issue p req subject s).1 r.users r.tenants;
      }
  serve-book req (refresh token) s fresh tidy =
      let r = rotate-Refines p req token s fresh tidy in
      record {
        answer = r.answer;
        ledger = r.ledger;
        tidy = r.tidy;
        active = same_accounts s (rotate p req (λ x. x) token s).1 r.users r.tenants;
      }
  serve-book req (log_out token) s fresh tidy =
      let (ledger, kept, users, tenants) = revoke-ledger p req token s tidy in
      record {
        answer = refl;
        ledger = ledger;
        tidy = kept;
        active = same_accounts s (revoke p req token s) users tenants;
      }

  -- For every history of sign-ins, refreshes and logouts that starts from a table with distinct ids
  -- and hashes, and in which each request's random token and row id are new: the calls that are
  -- given tokens are those that the ledger gives tokens to, and the standing of every hash after
  -- the history is that in the ledger after it.
  pub serve_all-book_all :
      (calls : List (Request × Call)) (s : State)
      → IsFreshRun calls s
      → IsTidy s.refresh_tokens
      → ((serve_all calls s).0
          ≡ (book_all (is_active_account s) calls (ledger_of s.refresh_tokens)).0)
        × (ledger_of (serve_all calls s).1.refresh_tokens
            ≡ (book_all (is_active_account s) calls (ledger_of s.refresh_tokens)).1)
  serve_all-book_all [] s fresh tidy = (refl, refl)
  serve_all-book_all ((req, c) ∷ calls) s (fresh, later) tidy =
      let now = serve-book req c s fresh tidy in
      let rest = serve_all-book_all calls (serve req c s).1 later now.tidy in
      let (answers, ledger) =
        subst₂
          (λ (a : String → Bool) (l : Ledger).
            ((serve_all calls (serve req c s).1).0 ≡ (book_all a calls l).0)
            × (ledger_of (serve_all calls (serve req c s).1).1.refresh_tokens
                ≡ (book_all a calls l).1))
          now.active now.ledger rest in
      (λ i. now.answer i ∷ answers i, ledger)
