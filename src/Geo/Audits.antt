-- ===== src/Geo/Audits.antt =====
-- modules/geo/audits.service.ts. The id of a new row, the clock and the outcome of the send are
-- arguments.
pub mod Cap
pub mod Controller
use ai_search_api.Base.{
  ℕ, String, Bool, true, Option, none, some, List, [], ◌∷◌, map, str_eq, leb, if◌then◌else◌,
}
use ai_search_api.Base.Result.{Thrown, http, Result, ok, err}
use ai_search_api.Base.Text.{Text, codes}
use ai_search_api.Base.Prisma.{Client}
use ai_search_api.Core.Jobs.{EnqueueOptions, enqueue}
use ai_search_api.Core.Pagination.{descending, ListQuery, Page, Pages, list_page}
use ai_search_api.Core.Tenancy.{scoped}
use ai_search_api.Geo.SiteAudit.{
  AuditStatus, failed, SiteAudit, World, GeoAuditJobData, new_audit, in_flight,
}

abbrev pub max_inflight_per_tenant : ℕ
max_inflight_per_tenant = 5

abbrev pub tenant_of : SiteAudit → String
tenant_of r = r.tenant_id

abbrev pub is_in_flight : String → SiteAudit → Bool
is_in_flight tenant = scoped tenant_of tenant (λ r. in_flight r.status)

abbrev pub has_id : String → String → SiteAudit → Bool
has_id tenant id = scoped tenant_of tenant (λ r. str_eq r.id id)

abbrev pub as_unqueued : ℕ → SiteAudit → SiteAudit
as_unqueued now r = record r {
  status = failed;
  error = some (codes "Could not queue the audit");
  updated_at = now;
}

abbrev pub too_many : Thrown
too_many = http 429 "Too many audits in progress; wait for some to finish"

abbrev pub audit_options : EnqueueOptions
audit_options = record { retry_limit = some 0; expire_in_seconds = some 300 }

abbrev pub payload_of : SiteAudit → GeoAuditJobData
payload_of audit = record { audit_id = audit.id; tenant_id = audit.tenant_id }

module _ (db : Client) where
  -- The send, with the compensation for its failure.
  unfoldable pub queue_audit : Option Thrown → ℕ → SiteAudit → World → Result SiteAudit × World
  unfolding enqueue
  queue_audit send_error now audit w =
      let (sent, jobs) =
        enqueue send_error (codes "geo.audit") (payload_of audit) audit_options w.jobs in
      elim sent [
        | ok _ ↦ (ok audit, record w { jobs = jobs })
        | err e ↦ (
          err e,
          record w {
            audits =
                (db.update_many (has_id audit.tenant_id audit.id) (as_unqueued now) w.audits).0;
            jobs = jobs;
          },
        )
      ]

  unfoldable pub create :
      String → ℕ → Option Thrown → Text → String → String → World → Result SiteAudit × World
  unfolding queue_audit
  create id now send_error url requested_by_id tenant_id w =
      if leb max_inflight_per_tenant (db.count_rows (is_in_flight tenant_id) w.audits)
      then (err too_many, w)
      else (let audit : SiteAudit = new_audit id url requested_by_id tenant_id now in
          queue_audit send_error now audit (record w { audits = db.create audit w.audits }))

  unfoldable pub find_one : String → String → World → Result SiteAudit
  find_one tenant id w = elim (db.find_first (has_id tenant id) w.audits) [
    | none ↦ err (http 404 "Audit not found")
    | some audit ↦ ok audit
  ]

-- What `select` leaves of a row.
pub record SiteAuditSummary : Type 0 where
  pub id : String
  pub url : Text
  pub status : AuditStatus
  pub error : Option Text
  pub created_at : ℕ

abbrev pub summary_of : SiteAudit → SiteAuditSummary
summary_of r = record {
  id = r.id;
  url = r.url;
  status = r.status;
  error = r.error;
  created_at = r.created_at;
}

abbrev pub summarise : Result (Page SiteAudit) → Result (Page SiteAuditSummary)
summarise (err e) = err e
summarise (ok page) =
    ok (record { items = map summary_of page.items; next_cursor = page.next_cursor })

module _ (pages : Pages (λ (r : SiteAudit). r.id)) (contains : Text → Text → Bool) where
  abbrev pub url_filter : String → Option Text → SiteAudit → Bool
  url_filter tenant search =
      scoped tenant_of tenant
        (λ r. elim search [ none ↦ true | some [] ↦ true | some (c ∷ s) ↦ contains r.url (c ∷ s) ])

  unfoldable pub list_audits : String → ListQuery → List SiteAudit → Result (Page SiteAuditSummary)
  unfolding list_page
  list_audits tenant q t = summarise (
      list_page (λ (r : SiteAudit). r.id) pages
        (codes "createdAt" ∷ codes "url" ∷ codes "status" ∷ [])
        (record { field = codes "createdAt"; order = descending }) (url_filter tenant q.search) q t)
