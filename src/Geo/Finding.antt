-- ===== src/Geo/Finding.antt =====
-- modules/geo/geo.types.ts: what a check reports.
use ai_search_api.Base.Text.{Text}

pub data FindingStatus : Type 0 where
  good needs_work : FindingStatus

pub data EvidenceStrength : Type 0 where
  hard advisory : EvidenceStrength

pub record Finding : Type 0 where
  pub dimension : Text
  pub title : Text
  pub status : FindingStatus
  pub summary : Text
  pub detail : Text
  pub recommendation : Text
  pub basis : Text
  pub strength : EvidenceStrength
