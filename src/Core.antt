-- ===== src/Core.antt =====
-- The cross-cutting parts under core/.
pub mod Tenancy
pub mod TenantRows
pub mod TenantScope
pub mod Pagination
pub mod Errors
pub mod Config
pub mod Bootstrap
pub mod Health
pub mod Validation
pub mod Telemetry
pub mod ContentDisposition
pub mod Interceptors
pub mod Pipeline
mod Tests
pub mod Jobs
pub mod AuditLog
