-- ===== src/Geo/Audits/Controller/Isolation.antt =====
-- modules/geo/audits.controller.ts: what the tenants see of one another through the audit routes.
use ai_search_api.Base.{String, ◌≡◌, ap, Bool, true, false, some, List}
use ai_search_api.Base.Result.{ok}
use ai_search_api.Base.Text.{Text}
use ai_search_api.Base.Prisma.{Client}
use ai_search_api.Core.Interceptors.{ends, is_truthy}
use ai_search_api.Core.Pagination.{ListQuery, Pages, names_one_of}
use ai_search_api.Core.Pipeline.{respond}
use ai_search_api.Core.TenantRows.{list_page-own, others}
use ai_search_api.Auth.Access.{AuthenticatedUser, authenticate, serve-signed_in, Server, Arrival}
use ai_search_api.Geo.SiteAudit.{SiteAudit, World}
use ai_search_api.Geo.Audits.{tenant_of, list_audits, summarise}
use ai_search_api.Geo.Audits.Controller.{
  AuditsCall, create_call, list_call, find_call, Draw, route, one, handle_audits, serve_audits,
}
use ai_search_api.Geo.Audits.Controller.Rows.{
  rows_of, alone, Apart, untouched, find_one-alone, create-Apart,
}

-- A list whose cursor is the id of an audit of another tenant.
abbrev pub has_foreign_cursor : AuditsCall → String → List SiteAudit → Bool
has_foreign_cursor (list_call q) tenant rows =
    names_one_of (λ (r : SiteAudit). r.id) q.cursor (others tenant_of tenant rows)
has_foreign_cursor (create_call url) tenant rows = false
has_foreign_cursor (find_call id) tenant rows = false

module _ (db : Client) (pages : Pages (λ (r : SiteAudit). r.id)) (contains : Text → Text → Bool)
    (draw : Draw) where
  list_audits-alone :
      (tenant : String) (q : ListQuery) (rows : List SiteAudit)
      → names_one_of (λ (r : SiteAudit). r.id) q.cursor (others tenant_of tenant rows) ≡ false
      → list_audits pages contains tenant q rows
        ≡ list_audits pages contains tenant q (rows_of tenant rows)
  unfolding list_audits
  list_audits-alone tenant q rows apart =
      ap summarise
        (list_page-own tenant_of tenant (λ (r : SiteAudit). r.id) pages _ _ _ q rows apart)

  handle_audits-Apart :
      (call : AuditsCall) (user : AuthenticatedUser) (w : World)
      → has_foreign_cursor call user.tenant_id w.audits ≡ false
      → Apart user.tenant_id w
          (handle_audits db pages contains draw call user (some user.tenant_id) w)
          (handle_audits db pages contains draw call user
            (some user.tenant_id)
            (alone user.tenant_id w))
  unfolding handle_audits
  handle_audits-Apart (create_call url) user w apart =
      let a = create-Apart db user.tenant_id draw.id draw.now draw.send_error url user.user_id w in
      record {
        same = ap one a.same;
        own_rows = a.own_rows;
        jobs = a.jobs;
        notifications = a.notifications;
        other_rows = a.other_rows;
      }
  handle_audits-Apart (list_call q) user w apart =
      rw (list_audits-alone user.tenant_id q w.audits apart) (untouched user.tenant_id w _)
  handle_audits-Apart (find_call id) user w apart =
      rw (find_one-alone db user.tenant_id id w) (untouched user.tenant_id w _)

  -- A request of a signed-in user to one of the audit routes, unless it is a list whose cursor is
  -- the id of an audit of another tenant, is answered as it is where the audits of other tenants
  -- are not in the table, the cap on audits in progress included; its effect on the user's own
  -- audits and on the jobs is the same as there, and it leaves the audits of other tenants and
  -- every notification as they are.
  pub serve_audits-Apart :
      (server : Server) (arrival : Arrival server) (call : AuditsCall) (user : AuthenticatedUser)
      (w : World)
      → authenticate server.verify_bearer arrival.authorization ≡ ok user
      → is_truthy user.tenant_id ≡ true
      → has_foreign_cursor call user.tenant_id w.audits ≡ false
      → Apart user.tenant_id w
          (serve_audits db pages contains draw server arrival call w)
          (serve_audits db pages contains draw server arrival call (alone user.tenant_id w))
  unfolding serve_audits
  serve_audits-Apart server arrival call user w signed_in bound apart =
      let a = handle_audits-Apart call user w apart in
      let handler = handle_audits db pages contains draw call in
      rw
        (
          serve-signed_in server arrival (route call) handler w user signed_in bound,
          serve-signed_in server arrival (route call) handler (alone user.tenant_id w) user
              signed_in bound,
        )
        (record {
          same =
              ap
                (λ r.
                  respond server.site (route call) arrival.request arrival.now
                    (ends arrival.took r))
                a.same;
          own_rows = a.own_rows;
          jobs = a.jobs;
          notifications = a.notifications;
          other_rows = a.other_rows;
        })
