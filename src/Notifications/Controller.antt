-- ===== src/Notifications/Controller.antt =====
-- modules/notifications/notifications.controller.ts and its dto. A query and an id have passed the
-- validation pipe and ParseUUIDPipe.
pub mod Marking
pub mod Ownership
use ai_search_api.Base.{ℕ, String, Bool, false, Option, none, some, List, map}
use ai_search_api.Base.Result.{Result, ok, err}
use ai_search_api.Base.Text.{Text, codes, text_eq}
use ai_search_api.Base.Prisma.{Client}
use ai_search_api.Core.Interceptors.{Body, value}
use ai_search_api.Core.Pagination.{ListQuery, Page, Pages}
use ai_search_api.Core.Pipeline.{Route, Response}
use ai_search_api.Auth.Access.{AuthenticatedUser, in_tenant, Server, Arrival, serve}
use ai_search_api.Notifications.Row.{Notification}
use ai_search_api.Notifications.{
  id_of_notification, unread_count, mark_read, mark_all_read, list_notifications,
}

-- The `unread` of a query string: the transform makes a Boolean of what is there.
abbrev pub unread_flag : Option Text → Option Bool
unread_flag none = none
unread_flag (some t) = some (text_eq t (codes "true"))

-- `query.unread ?? false`
abbrev pub or_false : Option Bool → Bool
or_false none = false
or_false (some b) = b

pub record ListNotificationsQuery : Type 0 where
  pub list : ListQuery
  pub unread : Option Bool

pub record NotificationResponse : Type 0 where
  pub id : String
  pub type : Text
  pub title : Text
  pub body : Text
  pub payload : Option String
  pub read_at : Option ℕ
  pub created_at : ℕ

abbrev pub from : Notification → NotificationResponse
from n = record {
  id = n.id;
  type = n.type;
  title = n.title;
  body = n.body;
  payload = n.payload;
  read_at = n.read_at;
  created_at = n.created_at;
}

pub data NotificationsCall : Type 0 where
  list_call : ListNotificationsQuery → NotificationsCall
  unread_count_call read_all_call : NotificationsCall
  mark_read_call : String → NotificationsCall

pub data NotificationsReply : Type 0 where
  page_of_notifications : Page NotificationResponse → NotificationsReply
  how_many : ℕ → NotificationsReply
  one_notification : NotificationResponse → NotificationsReply

abbrev pub route : NotificationsCall → Route
route (list_call q) = record { status = 200; skip_envelope = false }
route unread_count_call = record { status = 200; skip_envelope = false }
route read_all_call = record { status = 200; skip_envelope = false }
route (mark_read_call id) = record { status = 200; skip_envelope = false }

abbrev pub listed : Result (Page Notification) → Result (Body NotificationsReply)
listed (err e) = err e
listed (ok page) = ok (
    value (
      page_of_notifications
        (record { items = map from page.items; next_cursor = page.next_cursor })))

abbrev pub marked : Result Notification → Result (Body NotificationsReply)
marked (err e) = err e
marked (ok n) = ok (value (one_notification (from n)))

module _ (db : Client) (pages : Pages id_of_notification) (contains : Text → Text → Bool)
    (now : ℕ) where
  unfoldable pub handle_notifications :
      NotificationsCall
      → AuthenticatedUser
      → Option String
      → List Notification
      → Result (Body NotificationsReply) × List Notification
  unfolding unread_count mark_read mark_all_read list_notifications
  handle_notifications (list_call q) user tenant rows =
      in_tenant tenant
        (λ t rows. (
          listed (list_notifications pages contains t user.user_id q.list (or_false q.unread) rows),
          rows,
        ))
        rows
  handle_notifications unread_count_call user tenant rows =
      in_tenant tenant
        (λ t rows. (ok (value (how_many (unread_count db t user.user_id rows))), rows)) rows
  handle_notifications read_all_call user tenant rows =
      in_tenant tenant
        (λ t rows.
          let (changed, rows') = mark_all_read db t now user.user_id rows in
          (ok (value (how_many changed)), rows'))
        rows
  handle_notifications (mark_read_call id) user tenant rows =
      in_tenant tenant
        (λ t rows.
          let (r, rows') = mark_read db t now (λ xs. xs) user.user_id id rows in (marked r, rows'))
        rows

  unfoldable pub serve_notifications :
      (server : Server)
      → Arrival server
      → NotificationsCall
      → List Notification
      → Response NotificationsReply × List Notification
  unfolding serve handle_notifications
  serve_notifications server arrival call =
      serve server arrival (route call) (handle_notifications call)
