-- ===== src/Auth/Tests/Histories.antt =====
-- The theorems on histories of calls on the refresh tokens, at a concrete history.
use ai_search_api.Base.{◌≤◌, ◌≡◌, refl, List, [], ◌∷◌}
use ai_search_api.Auth.Tests.{small_platform, before, ann, request_at}
use ai_search_api.Auth.State.{Request}
use ai_search_api.Auth.Ledger.{ledger_of, IsTidy, is_active_account}
use ai_search_api.Auth.Ledger.Runs.{
  Call, sign_in, refresh, log_out, serve_all, book_all, IsFreshRun, serve_all-book_all,
}
use ai_search_api.Auth.Ledger.SingleUse.{times_accepted, times_accepted-single}
use ai_search_api.Auth.Tokens.{
  TokenSubject, revoke_all_for_user, subject_of, create_refresh_token, issue, owner_of, claim_token,
  rotate_row, rotate, revoke,
}

abbrev subject : TokenSubject
subject = subject_of ann

-- A sign-in, its refresh, the replay of the same token, and a logout.
abbrev history : List (Request × Call)
history =
    (request_at 20 "first", sign_in subject)
    ∷ (request_at 30 "second", refresh "first")
    ∷ (request_at 40 "third", refresh "first")
    ∷ (request_at 50 "fourth", log_out "second")
    ∷ []

before-IsTidy : IsTidy before.refresh_tokens
before-IsTidy = record { ids = refl; hashes = refl }

history-IsFreshRun : IsFreshRun small_platform history before
unfolding issue create_refresh_token rotate rotate_row claim_token owner_of revoke
    revoke_all_for_user
history-IsFreshRun = (
  record { id = refl; hash = refl },
  (
    record { id = refl; hash = refl },
    (record { id = refl; hash = refl }, (record { id = refl; hash = refl }, tt)),
  ),
)

serve_all-book_all_example :
    ((serve_all small_platform history before).0
      ≡ (book_all small_platform
          (is_active_account before)
          history
          (ledger_of before.refresh_tokens)).0)
    × (ledger_of (serve_all small_platform history before).1.refresh_tokens
        ≡ (book_all small_platform
            (is_active_account before)
            history
            (ledger_of before.refresh_tokens)).1)
serve_all-book_all_example =
    serve_all-book_all small_platform history before history-IsFreshRun before-IsTidy

times_accepted-single_example : times_accepted small_platform "first" history before ≤ 1
times_accepted-single_example =
    times_accepted-single small_platform "first" history before history-IsFreshRun before-IsTidy
