-- ===== src/Web.antt =====
-- crates/immich-web: limits, jobs, grants and what ties them together.
pub mod Limits
pub mod Grants
pub mod Jobs
pub mod Console
mod Examples
