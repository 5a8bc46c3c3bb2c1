-- ===== src/Core.antt =====
-- crates/immich-core: the plans and their validators.
pub mod Platform
pub mod Metadata
pub mod Planning
pub mod Roles
pub mod Upload
pub mod Archive
pub mod Migration
pub mod Production
pub mod Reports
pub mod Samples
mod Examples
