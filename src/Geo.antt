-- ===== src/Geo.antt =====
-- The product module modules/geo: the site audit.
pub mod Numeral
pub mod Address
pub mod UrlGuard
pub mod PageFetcher
pub mod Finding
pub mod SiteAudit
pub mod Audits
pub mod Worker
pub mod PlainText
pub mod Checks
mod Tests
