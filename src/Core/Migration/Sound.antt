-- ===== src/Core/Migration/Sound.antt =====
-- migration.rs, `MigrationPlan::validate`: what an accepted migration plan satisfies, and that
-- nothing else is required.
use immich_rs.Core.Migration.Albums.{IsMigrationAlbum, album_names, validate_albums_iff}
use immich_rs.Core.Migration.Assets.{
  operation_ids, keys-entries, entries_of, validate_assets_sound, validate_assets_complete,
  AreMigrationAssets,
}
use immich_rs.Common.{
  none, All, text_eq_iff, Before, ◌≢◌, ◌↔◌, arith, >>=-eq-ok, AllPairs, true, ok, ◌≡◌,
}
use immich_rs.Core.Platform.{Platform}
use immich_rs.Core.Migration.{
  expected_summary, validate_albums, validate_assets, MigrationPlanSummary, summary_eq,
  MigrationPlan, validate, check_header, lower_hex, server_valid,
}

pub record IsHeader (plan : MigrationPlan) : Type 0 where
  pub schema : plan.schema_version ≡ 1
  pub source : server_valid plan.source_server ≡ true
  pub destination : server_valid plan.destination_server ≡ true
  pub origins : plan.source_server.origin_sha256 ≢ plan.destination_server.origin_sha256
  pub identities :
      plan.source_server.compatibility.identity_sha256
      ≢ plan.destination_server.compatibility.identity_sha256
  pub fingerprint : lower_hex plan.source_fingerprint_sha256 64 ≡ true
  pub configuration : lower_hex plan.configuration_sha256 64 ≡ true

check_header_sound : (plan : MigrationPlan) → check_header plan ≡ ok tt → IsHeader plan
unfolding check_header
check_header_sound plan h = ground (
  arith,
  text_eq_iff plan.source_server.origin_sha256 plan.destination_server.origin_sha256,
  text_eq_iff plan.source_server.compatibility.identity_sha256
      plan.destination_server.compatibility.identity_sha256,
)

check_header_complete : (plan : MigrationPlan) → IsHeader plan → check_header plan ≡ ok tt
unfolding check_header
check_header_complete plan v = ground (
  arith,
  text_eq_iff plan.source_server.origin_sha256 plan.destination_server.origin_sha256,
  text_eq_iff plan.source_server.compatibility.identity_sha256
      plan.destination_server.compatibility.identity_sha256,
)

summary_eq_iff : (a b : MigrationPlanSummary) → (summary_eq a b ≡ true) ↔ (a ≡ b)
unfolding summary_eq
summary_eq_iff a b = (λ h. ground arith, λ h. ground arith)

-- What a migration plan promises: two different servers, ordered and distinct assets whose live
-- photos are complete, ordered albums whose members are planned, and the counters of the body.
pub record IsMigrationPlan (platform : Platform) (plan : MigrationPlan) : Type 0 where
  pub header : IsHeader plan
  pub assets : AreMigrationAssets platform plan.assets
  pub album_order : AllPairs Before (album_names plan.albums)
  pub albums : All (IsMigrationAlbum (operation_ids plan.assets)) plan.albums
  pub summary : expected_summary plan.assets plan.albums ≡ plan.summary

validate_sound :
    (platform : Platform) (plan : MigrationPlan)
    → validate platform plan ≡ ok tt
    → IsMigrationPlan platform plan
unfolding validate
validate_sound platform plan h =
    let (_, first, second) = >>=-eq-ok (check_header plan) _ h in
    let (known, asset_step, third) = >>=-eq-ok (validate_assets platform plan.assets) _ second in
    let (same, assets) = validate_assets_sound platform plan.assets asset_step in
    let (_, album_step, last) =
      >>=-eq-ok (validate_albums platform none known plan.albums) _ third in
    let (order, albums) =
      (validate_albums_iff platform (entries_of plan.assets) plan.albums).0
        (rw same at album_step) in
    record {
      header = check_header_sound plan first;
      assets = assets;
      album_order = order;
      albums = rw (keys-entries plan.assets) at albums;
      summary =
          (summary_eq_iff (expected_summary plan.assets plan.albums) plan.summary).0 (ground arith);
    }

validate_complete :
    (platform : Platform) (plan : MigrationPlan)
    → IsMigrationPlan platform plan
    → validate platform plan ≡ ok tt
unfolding validate
validate_complete platform plan v = rw (
  check_header_complete plan v.header,
  validate_assets_complete platform plan.assets v.assets,
  (validate_albums_iff platform (entries_of plan.assets) plan.albums).1
      (v.album_order, rw (keys-entries plan.assets) v.albums),
  (summary_eq_iff (expected_summary plan.assets plan.albums) plan.summary).1 v.summary,
)

-- A migration plan is accepted exactly when it satisfies `IsMigrationPlan`: it is between two different
-- servers, its assets are well formed, in strict order of their source IDs, with distinct operation
-- IDs and complete live photos, its albums are in strict order and have planned members only, and the
-- counters are those of the assets and albums.
pub migration_plan_iff :
    (platform : Platform) (plan : MigrationPlan)
    → (validate platform plan ≡ ok tt) ↔ IsMigrationPlan platform plan
migration_plan_iff platform plan = (validate_sound platform plan, validate_complete platform plan)
