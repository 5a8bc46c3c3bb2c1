-- ===== src/Executor.antt =====
-- crates/immich-executor: the journalled execution of an upload plan.
pub mod Config
pub mod Retry
pub mod Journal
pub mod Operation
pub mod Groups
pub mod Apply
mod Examples
