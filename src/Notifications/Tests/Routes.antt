-- ===== src/Notifications/Tests/Routes.antt =====
-- The theorem on the notification routes at a concrete server.
use ai_search_api.Base.{◌≡◌, refl, false, some}
use ai_search_api.Base.Text.{codes}
use ai_search_api.Base.Result.{ok}
use ai_search_api.Base.Prisma.{list_client}
use ai_search_api.Core.Pagination.Sample.{plain_pages}
use ai_search_api.Auth.Access.{AuthenticatedUser, authenticate}
use ai_search_api.Auth.Sample.{small_server, arrival_of}
use ai_search_api.Notifications.{id_of_notification}
use ai_search_api.Notifications.Controller.{read_all_call, serve_notifications}
use ai_search_api.Notifications.Controller.Marking.{own_of, Apart}
use ai_search_api.Notifications.Controller.Ownership.{serve_notifications-Apart}
use ai_search_api.Notifications.Tests.{table}

abbrev ann : AuthenticatedUser
ann = record { user_id = "u1"; tenant_id = "t1"; email = codes "ann@acme.test" }

signed_in : authenticate small_server.verify_bearer (some (codes "t1")) ≡ ok ann
unfolding authenticate
signed_in = refl

serve_notifications-Apart_example :
    Apart ann table
      (serve_notifications list_client
        (plain_pages id_of_notification)
        (λ s t. false)
        9
        small_server
        (arrival_of (codes "t1"))
        read_all_call
        table)
      (serve_notifications list_client
        (plain_pages id_of_notification)
        (λ s t. false)
        9
        small_server
        (arrival_of (codes "t1"))
        read_all_call
        (own_of ann table))
serve_notifications-Apart_example =
    serve_notifications-Apart list_client (plain_pages id_of_notification) (λ s t. false) 9
      small_server (arrival_of (codes "t1")) read_all_call ann table signed_in refl refl
