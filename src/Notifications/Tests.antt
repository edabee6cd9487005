-- ===== src/Notifications/Tests.antt =====
-- The theorems on notifications at concrete inputs.
mod Routes
use ai_search_api.Base.{ℕ, ◌≡◌, refl, not, none, some, List, [], ◌∷◌, first, keep, change}
use ai_search_api.Base.Prisma.{list_client}
use ai_search_api.Core.Tenancy.{scoped}
use ai_search_api.Notifications.Reading.{mark_read-once}
use ai_search_api.Base.Text.{codes}
use ai_search_api.Notifications.Row.{Notification, NotifyInput}
use ai_search_api.Notifications.{owned_by, unread_by, as_read, new_notification, mark_read}

abbrev finished : NotifyInput
finished = record {
  user_id = "u1";
  tenant_id = "t1";
  type = codes "audit";
  title = codes "Done";
  body = codes "Done";
  payload = none;
}

abbrev table : List Notification
table =
    new_notification "n1" 1 finished
    ∷ new_notification "n2" 2 (record finished { user_id = "u2" })
    ∷ []

-- Another request reads the notification first.
abbrev other_reads : List Notification → List Notification
other_reads = change (unread_by "t1" "u1" "n1") (as_read 5000)

abbrev after_both : List Notification
after_both = (mark_read list_client "t1" 6000 other_reads "u1" "n1" table).1

mark_read-once_example :
    (first (owned_by "t1" "u1" "n1") after_both
      ≡ some (as_read 5000 (new_notification "n1" 1 finished)))
    × (keep (λ n. not (owned_by "t1" "u1" "n1" n)) after_both
        ≡ new_notification "n2" 2 (record finished { user_id = "u2" }) ∷ [])
    × (first (owned_by "t1" "u1" "n1") table ≡ some (new_notification "n1" 1 finished))
    × ((later : ℕ)
        → (mark_read list_client "t1" later (λ x. x) "u1" "n1" after_both).1 ≡ after_both)
unfolding mark_read scoped
mark_read-once_example =
    mark_read-once "t1" "u1" "n1" list_client 6000 other_reads table
      (new_notification "n1" 1 finished) after_both refl
