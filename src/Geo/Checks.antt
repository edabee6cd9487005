-- ===== src/Geo/Checks.antt =====
-- modules/geo/checks: what a check is given, and what it reports.
pub mod CrawlerAccess
pub mod Page
pub mod StructuredData
pub mod Report
