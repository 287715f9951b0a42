-- ===== src/Http.antt =====
-- The HTTP interface: the filter of failures, the routes with their guards, and the health checks.
pub mod Filter
pub mod Api
pub mod Admin
pub mod Refusals
pub mod Health
