-- ===== src/Geo/Audits/Controller.antt =====
-- modules/geo/audits.controller.ts and dto/audit.response.ts. A body and an id have passed the
-- validation pipe and ParseUUIDPipe.
pub mod Rows
pub mod Isolation
use ai_search_api.Base.{ℕ, String, Bool, false, Option, List, map}
use ai_search_api.Base.Result.{Thrown, Result, ok, err}
use ai_search_api.Base.Text.{Text}
use ai_search_api.Base.Prisma.{Client}
use ai_search_api.Core.Interceptors.{Body, value}
use ai_search_api.Core.Pagination.{ListQuery, Page, Pages}
use ai_search_api.Core.Pipeline.{Route, Response}
use ai_search_api.Auth.Access.{AuthenticatedUser, in_tenant, Server, Arrival, serve}
use ai_search_api.Geo.Finding.{Finding}
use ai_search_api.Geo.SiteAudit.{AuditStatus, SiteAudit, World}
use ai_search_api.Geo.Audits.{SiteAuditSummary, create, find_one, list_audits}

pub record SiteAuditResponse : Type 0 where
  pub id : String
  pub url : Text
  pub status : AuditStatus
  pub findings : Option (List Finding)
  pub error : Option Text
  pub created_at : ℕ

abbrev pub from : SiteAudit → SiteAuditResponse
from a = record {
  id = a.id;
  url = a.url;
  status = a.status;
  findings = a.findings;
  error = a.error;
  created_at = a.created_at;
}

pub record SiteAuditSummaryResponse : Type 0 where
  pub id : String
  pub url : Text
  pub status : AuditStatus
  pub error : Option Text
  pub created_at : ℕ

abbrev pub summary_from : SiteAuditSummary → SiteAuditSummaryResponse
summary_from a = record {
  id = a.id;
  url = a.url;
  status = a.status;
  error = a.error;
  created_at = a.created_at;
}

pub data AuditsCall : Type 0 where
  create_call : Text → AuditsCall
  list_call : ListQuery → AuditsCall
  find_call : String → AuditsCall

pub data AuditsReply : Type 0 where
  one_audit : SiteAuditResponse → AuditsReply
  page_of_audits : Page SiteAuditSummaryResponse → AuditsReply

abbrev pub route : AuditsCall → Route
route (create_call url) = record { status = 202; skip_envelope = false }
route (list_call q) = record { status = 200; skip_envelope = false }
route (find_call id) = record { status = 200; skip_envelope = false }

-- The id of a new row, the clock, and what the queue throws, if anything.
pub record Draw : Type 0 where
  pub id : String
  pub now : ℕ
  pub send_error : Option Thrown

abbrev pub one : Result SiteAudit → Result (Body AuditsReply)
one (err e) = err e
one (ok audit) = ok (value (one_audit (from audit)))

abbrev pub listed : Result (Page SiteAuditSummary) → Result (Body AuditsReply)
listed (err e) = err e
listed (ok page) = ok (
    value (
      page_of_audits
        (record { items = map summary_from page.items; next_cursor = page.next_cursor })))

module _ (db : Client) (pages : Pages (λ (r : SiteAudit). r.id)) (contains : Text → Text → Bool)
    (draw : Draw) where
  unfoldable pub handle_audits :
      AuditsCall → AuthenticatedUser → Option String → World → Result (Body AuditsReply) × World
  unfolding create find_one list_audits
  handle_audits (create_call url) user tenant w =
      in_tenant tenant
        (λ t w.
          let (r, w') =
            create db draw.id draw.now draw.send_error url user.user_id user.tenant_id w in
          (one r, w'))
        w
  handle_audits (list_call q) user tenant w =
      in_tenant tenant (λ t w. (listed (list_audits pages contains t q w.audits), w)) w
  handle_audits (find_call id) user tenant w =
      in_tenant tenant (λ t w. (one (find_one db t id w), w)) w

  unfoldable pub serve_audits :
      (server : Server) → Arrival server → AuditsCall → World → Response AuditsReply × World
  unfolding serve handle_audits
  serve_audits server arrival call = serve server arrival (route call) (handle_audits call)
