-- ===== src/Notifications/Controller/Ownership.antt =====
-- modules/notifications: whose notifications a request reads, and whose it can change.
use ai_search_api.Base.{ℕ, ◌≡◌, sym, ap, Bool, true, false, some, List}
use ai_search_api.Base.Result.{ok}
use ai_search_api.Base.Within.{keep-within}
use ai_search_api.Base.Text.{Text}
use ai_search_api.Base.Prisma.{Client}
use ai_search_api.Core.Interceptors.{value, is_truthy, ends}
use ai_search_api.Core.Pipeline.{respond}
use ai_search_api.Core.Pagination.{Pages, ListQuery, list_page-same, names_one_of, cursor_row-own}
use ai_search_api.Auth.Access.{AuthenticatedUser, authenticate, serve-signed_in, Server, Arrival}
use ai_search_api.Notifications.Row.{Notification}
use ai_search_api.Notifications.{id_of_notification, list_notifications, notification_filter}
use ai_search_api.Notifications.Controller.{
  how_many, NotificationsCall, list_call, unread_count_call, read_all_call, mark_read_call, route,
  handle_notifications, serve_notifications, listed, marked, or_false,
}
use ai_search_api.Notifications.Controller.Marking.{
  of_others, is_addressed, own_of, Apart, unchanged, filter-Within, counted, read_all-Apart,
  mark_read-Apart,
}

-- A list whose cursor is the id of a notification of somebody else.
abbrev pub has_foreign_cursor : NotificationsCall → AuthenticatedUser → List Notification → Bool
has_foreign_cursor (list_call q) user rows =
    names_one_of id_of_notification q.list.cursor (of_others user rows)
has_foreign_cursor unread_count_call user rows = false
has_foreign_cursor read_all_call user rows = false
has_foreign_cursor (mark_read_call id) user rows = false

module _ (db : Client) (pages : Pages id_of_notification) (contains : Text → Text → Bool)
    (now : ℕ) where
  listed-own :
      (user : AuthenticatedUser) (q : ListQuery) (unread_only : Bool) (rows : List Notification)
      → names_one_of id_of_notification q.cursor (of_others user rows) ≡ false
      → list_notifications pages contains user.tenant_id user.user_id q unread_only rows
        ≡ list_notifications pages contains user.tenant_id user.user_id q unread_only
            (own_of user rows)
  unfolding list_notifications
  listed-own user q unread_only rows apart =
      let p = notification_filter contains user.tenant_id user.user_id unread_only q.search in
      list_page-same id_of_notification pages _ _ p q rows (own_of user rows)
        (sym (
          keep-within (is_addressed user) p
            (filter-Within db user now contains unread_only q.search) rows))
        (cursor_row-own id_of_notification (is_addressed user) q.cursor rows apart)

  handle_notifications-Apart :
      (call : NotificationsCall) (user : AuthenticatedUser) (rows : List Notification)
      → has_foreign_cursor call user rows ≡ false
      → Apart user rows
          (handle_notifications db pages contains now call user (some user.tenant_id) rows)
          (handle_notifications db pages contains now call user
            (some user.tenant_id)
            (own_of user rows))
  unfolding handle_notifications
  handle_notifications-Apart (list_call q) user rows apart =
      unchanged db user now rows _ _
        (ap listed (listed-own user q.list (or_false q.unread) rows apart))
  handle_notifications-Apart unread_count_call user rows apart =
      unchanged db user now rows _ _ (ap (λ n. ok (value (how_many n))) (counted db user now rows))
  handle_notifications-Apart read_all_call user rows apart =
      let a = read_all-Apart db user now rows in
      record {
        same = ap (λ n. ok (value (how_many n))) a.same;
        own_rows = a.own_rows;
        other_rows = a.other_rows;
      }
  handle_notifications-Apart (mark_read_call id) user rows apart =
      let a = mark_read-Apart db user now id rows in
      record { same = ap marked a.same; own_rows = a.own_rows; other_rows = a.other_rows }

  -- A request of a signed-in user to one of the notification routes, unless it is a list whose
  -- cursor is the id of a notification of somebody else, is answered as it is where the table has
  -- the notifications to that user only; it does the same to those as there, and it leaves every
  -- notification that is addressed to another user, or to a user of another tenant, as it is.
  pub serve_notifications-Apart :
      (server : Server) (arrival : Arrival server) (call : NotificationsCall)
      (user : AuthenticatedUser) (rows : List Notification)
      → authenticate server.verify_bearer arrival.authorization ≡ ok user
      → is_truthy user.tenant_id ≡ true
      → has_foreign_cursor call user rows ≡ false
      → Apart user rows
          (serve_notifications db pages contains now server arrival call rows)
          (serve_notifications db pages contains now server arrival call (own_of user rows))
  unfolding serve_notifications
  serve_notifications-Apart server arrival call user rows signed_in bound apart =
      let a = handle_notifications-Apart call user rows apart in
      let handler = handle_notifications db pages contains now call in
      rw
        (
          serve-signed_in server arrival (route call) handler rows user signed_in bound,
          serve-signed_in server arrival (route call) handler (own_of user rows) user signed_in
              bound,
        )
        (record {
          same =
              ap
                (λ x.
                  respond server.site (route call) arrival.request arrival.now
                    (ends arrival.took x))
                a.same;
          own_rows = a.own_rows;
          other_rows = a.other_rows;
        })
