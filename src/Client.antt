-- ===== src/Client.antt =====
-- crates/immich-client: the failure classes, and what the upload client accepts of a response.
pub mod Errors
pub mod Uploads
