-- ===== src/Notifications.antt =====
-- modules/notifications/notifications.service.ts, in a tenant's context. The table is the state;
-- the id of a new row and the clock are arguments.
pub mod Row
pub mod Unread
pub mod Reading
pub mod Controller
mod Tests
use ai_search_api.Base.{
  ℕ, String, Bool, true, false, not, ◌&&◌, ◌||◌, Option, none, some, List, [], ◌∷◌, str_eq, ◌==◌,
  if◌then◌else◌,
}
use ai_search_api.Base.Result.{http, Result, ok, err}
use ai_search_api.Base.Text.{Text, codes}
use ai_search_api.Base.Prisma.{Client}
use ai_search_api.Core.Tenancy.{scoped}
use ai_search_api.Core.Pagination.{descending, ListQuery, Page, Pages, list_page}
use ai_search_api.Notifications.Row.{Notification, NotifyInput}

abbrev pub tenant_of_notification : Notification → String
tenant_of_notification n = n.tenant_id

abbrev pub id_of_notification : Notification → String
id_of_notification n = n.id

abbrev pub is_unread : Notification → Bool
is_unread n = elim n.read_at [ none ↦ true | some t ↦ false ]

-- `{ userId, readAt: null }`
abbrev pub unread_of : String → String → Notification → Bool
unread_of tenant user =
    scoped tenant_of_notification tenant (λ n. str_eq n.user_id user && is_unread n)

-- `{ id, userId }`
abbrev pub owned_by : String → String → String → Notification → Bool
owned_by tenant user id =
    scoped tenant_of_notification tenant (λ n. str_eq n.id id && str_eq n.user_id user)

-- `{ id, userId, readAt: null }`
abbrev pub unread_by : String → String → String → Notification → Bool
unread_by tenant user id =
    scoped tenant_of_notification tenant
      (λ n. str_eq n.id id && str_eq n.user_id user && is_unread n)

abbrev pub as_read : ℕ → Notification → Notification
as_read now n = record n { read_at = some now }

abbrev pub new_notification : String → ℕ → NotifyInput → Notification
new_notification id now input = record {
  id = id;
  tenant_id = input.tenant_id;
  user_id = input.user_id;
  type = input.type;
  title = input.title;
  body = input.body;
  payload = input.payload;
  created_at = now;
  read_at = none;
}

-- `contains` in the insensitive mode is the database's.
abbrev pub notification_filter :
    (Text → Text → Bool) → String → String → Bool → Option Text → Notification → Bool
notification_filter contains tenant user unread_only search =
    scoped tenant_of_notification tenant (λ n.
      str_eq n.user_id user && (not unread_only || is_unread n) && elim search [
        | none ↦ true
        | some [] ↦ true
        | some (c ∷ s) ↦ contains n.title (c ∷ s) || contains n.body (c ∷ s)
      ])

module _ (db : Client) where
  unfoldable pub notify :
      String → ℕ → NotifyInput → List Notification → Notification × List Notification
  notify id now input t =
      (new_notification id now input, db.create (new_notification id now input) t)

  unfoldable pub unread_count : String → String → List Notification → ℕ
  unread_count tenant user t = db.count_rows (unread_of tenant user) t

  -- `others` is what other requests do to the table between the read and the write.
  unfoldable pub mark_read :
      String
      → ℕ
      → (List Notification → List Notification)
      → String
      → String
      → List Notification
      → Result Notification × List Notification
  mark_read tenant now others user id t = elim (db.find_first (owned_by tenant user id) t) [
    | none ↦ (err (http 404 "Notification not found"), t)
    | some existing ↦
        let (t', changed) = db.update_many (unread_by tenant user id) (as_read now) (others t) in
        if changed == 0
        then (ok existing, t')
        else elim (db.find_first (owned_by tenant user id) t') [
          | none ↦ (ok existing, t')
          | some updated ↦ (ok updated, t')
        ]
  ]

  unfoldable pub mark_all_read : String → ℕ → String → List Notification → ℕ × List Notification
  mark_all_read tenant now user t =
      let (t', changed) = db.update_many (unread_of tenant user) (as_read now) t in (changed, t')

module _ (pages : Pages id_of_notification) (contains : Text → Text → Bool) where
  unfoldable pub list_notifications :
      String → String → ListQuery → Bool → List Notification → Result (Page Notification)
  unfolding list_page
  list_notifications tenant user q unread_only t =
      list_page id_of_notification pages (codes "createdAt" ∷ [])
        (record { field = codes "createdAt"; order = descending })
        (notification_filter contains tenant user unread_only q.search) q t
