-- ===== src/Geo/SiteAudit.antt =====
-- The rows that the audit services keep: the `SiteAudit` and `Notification` models of
-- prisma/schema.prisma, and the state of the two tables.
use ai_search_api.Base.{none, ℕ, String, Bool, true, false, Option, List}
use ai_search_api.Base.Text.{Text}
use ai_search_api.Core.Jobs.{Job}
use ai_search_api.Geo.Finding.{Finding}
use ai_search_api.Notifications.Row.{Notification}

pub data AuditStatus : Type 0 where
  pending processing completed failed : AuditStatus

pub record SiteAudit : Type 0 where
  pub id : String
  pub tenant_id : String
  pub requested_by_id : String
  pub url : Text
  pub status : AuditStatus
  pub findings : Option (List Finding)
  pub error : Option Text
  pub fetched_at : Option ℕ
  pub created_at : ℕ
  pub updated_at : ℕ

-- modules/geo/geo.constants.ts, the payload of an audit job.
pub record GeoAuditJobData : Type 0 where
  pub audit_id : String
  pub tenant_id : String

-- The tables of audits and notifications, and the jobs that were sent to the audit queue.
pub record World : Type 0 where
  pub audits : List SiteAudit
  pub notifications : List Notification
  pub jobs : List (Job GeoAuditJobData)

-- A new row has `status` PENDING by default, and no result.
abbrev pub new_audit : String → Text → String → String → ℕ → SiteAudit
new_audit id url requested_by_id tenant_id now = record {
  id = id;
  tenant_id = tenant_id;
  requested_by_id = requested_by_id;
  url = url;
  status = pending;
  findings = none;
  error = none;
  fetched_at = none;
  created_at = now;
  updated_at = now;
}

abbrev pub is_pending : AuditStatus → Bool
is_pending pending = true
is_pending _ = false

abbrev pub is_processing : AuditStatus → Bool
is_processing processing = true
is_processing _ = false

-- `status: { in: ['PENDING', 'PROCESSING'] }`
abbrev pub in_flight : AuditStatus → Bool
in_flight pending = true
in_flight processing = true
in_flight _ = false
