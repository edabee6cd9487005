-- ===== src/Geo/Tests/Routes.antt =====
-- The theorem on the audit routes at a concrete server with the audits of two tenants.
use ai_search_api.Base.{◌≡◌, refl, false, none, some, [], ◌∷◌}
use ai_search_api.Base.Text.{codes}
use ai_search_api.Base.Result.{ok}
use ai_search_api.Base.Prisma.{list_client}
use ai_search_api.Core.Pagination.Sample.{plain_pages}
use ai_search_api.Auth.Access.{AuthenticatedUser, authenticate}
use ai_search_api.Auth.Sample.{small_server, arrival_of}
use ai_search_api.Geo.SiteAudit.{SiteAudit, World, new_audit}
use ai_search_api.Geo.Audits.Controller.{AuditsCall, create_call, Draw, serve_audits}
use ai_search_api.Geo.Audits.Controller.Rows.{alone, Apart}
use ai_search_api.Geo.Audits.Controller.Isolation.{serve_audits-Apart}

abbrev both : World
both = record {
  audits =
      new_audit "a1" (codes "https://a.test") "u1" "t1" 3
      ∷ new_audit "a2" (codes "https://b.test") "u2" "t2" 4
      ∷ [];
  notifications = [];
  jobs = [];
}

abbrev draw : Draw
draw = record { id = "a3"; now = 9; send_error = none }

abbrev bob : AuthenticatedUser
bob = record { user_id = "u2"; tenant_id = "t2"; email = codes "bob@acme.test" }

signed_in : authenticate small_server.verify_bearer (some (codes "t2")) ≡ ok bob
unfolding authenticate
signed_in = refl

abbrev submit : AuditsCall
submit = create_call (codes "https://c.test")

serve_audits-Apart_example :
    Apart "t2" both
      (serve_audits list_client
        (plain_pages (λ (r : SiteAudit). r.id))
        (λ s t. false)
        draw
        small_server
        (arrival_of (codes "t2"))
        submit
        both)
      (serve_audits list_client
        (plain_pages (λ (r : SiteAudit). r.id))
        (λ s t. false)
        draw
        small_server
        (arrival_of (codes "t2"))
        submit
        (alone "t2" both))
serve_audits-Apart_example =
    serve_audits-Apart list_client (plain_pages (λ (r : SiteAudit). r.id)) (λ s t. false) draw
      small_server (arrival_of (codes "t2")) submit bob both signed_in refl refl
