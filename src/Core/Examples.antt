-- ===== src/Core/Examples.antt =====
-- The validators on small plans, and the theorems on them.
use immich_rs.Core.Production.{IsConfirmation-iff}
use immich_rs.Core.Archive.Components.{validate_asset_panics}
use immich_rs.Core.Upload.Summary.{album_set_iff, mutation_budget}
use immich_rs.Core.Migration.{expected_summary}
use immich_rs.Core.Archive.Sound.{archive_manifest_iff, IsArchiveManifest}
use immich_rs.Core.Migration.Sound.{migration_plan_iff, IsMigrationPlan}
use immich_rs.Core.Planning.Sound.{normalized_plan_iff, IsNormalizedPlan}
use immich_rs.Core.Metadata.{valid_text, valid_album, metadata_is_valid}
use immich_rs.Core.Planning.{kind_eq}
use immich_rs.Core.Samples.{
  confirmation, photo_operations, digest_a, migration_plan, archive_manifest, emoji_asset,
  normalized_plan, upload_plan, sample_platform,
}
use immich_rs.Core.Roles.{match_video, check_role, check_roles}
use immich_rs.Core.Upload.Sound.{upload_plan_iff, IsUploadPlan}
use immich_rs.Core.Upload.{album_set, UploadPlan}
use immich_rs.Common.{
  ◌↔◌, panicked, arith, err, str, Text, [], none, true, Distinct, is_trimmed, ends_with_byte,
  contains_byte, has_control, chars_from, chars, text_lt, text_eq, contains, ◌≡◌, refl, ok,
}
use immich_rs.Common.Map
use immich_rs.Core.Upload as Upload
use immich_rs.Core.Upload.Summary as Summary
use immich_rs.Core.Planning as Planning
use immich_rs.Core.Archive as Archive
use immich_rs.Core.Migration as Migration
use immich_rs.Core.Production as Production

upload_plan-accepted : Upload.validate sample_platform upload_plan ≡ ok tt
unfolding Upload.validate Upload.check_header Upload.is_sha256 Upload.scan_operations
    Upload.validate_operation Upload.validate_dependencies check_roles check_role match_video
    Upload.expected_summary Upload.summary_eq Upload.media_bytes_of Upload.album_set
    Upload.set_extend Upload.set_insert kind_eq metadata_is_valid valid_album valid_text contains
    text_eq text_lt chars chars_from has_control contains_byte ends_with_byte Map.insert Map.get
upload_plan-accepted = refl

upload_plan_iff_example : IsUploadPlan sample_platform upload_plan
upload_plan_iff_example = (upload_plan_iff sample_platform upload_plan).0 upload_plan-accepted

album_set_iff_example :
    Distinct (album_set photo_operations [])
    × ((j : Text)
        → Summary.Holds j (album_set photo_operations []) ↔ Summary.Named j photo_operations)
album_set_iff_example = album_set_iff photo_operations

mutation_budget_example : (Upload.expected_summary 2 photo_operations).max_mutations ≡ 6
unfolding Upload.expected_summary Upload.media_bytes_of album_set Upload.set_extend
    Upload.set_insert contains text_eq
mutation_budget_example =
    mutation_budget 2 photo_operations (album_set photo_operations [])
      (album_set_iff photo_operations).0 (album_set_iff photo_operations).1 (omega arith)

normalized_plan-accepted : Planning.validate sample_platform normalized_plan ≡ ok tt
unfolding Planning.validate Planning.check_schema Planning.scan_assets Planning.check_asset
    Planning.check_summary Planning.sidecar_count Planning.diagnostic_lt kind_eq metadata_is_valid
    valid_album valid_text contains text_eq text_lt chars chars_from has_control contains_byte
    ends_with_byte
normalized_plan-accepted = refl

normalized_plan_iff_example : IsNormalizedPlan sample_platform normalized_plan
normalized_plan_iff_example =
    (normalized_plan_iff sample_platform normalized_plan).0 normalized_plan-accepted

archive_manifest-accepted : Archive.validate archive_manifest ≡ ok tt
unfolding Archive.validate Archive.check_header Archive.is_sha256 Archive.scan_assets
    Archive.validate_asset Archive.canonical_uuid_v4 Archive.all_indexed Archive.safe_component
    Archive.is_unsafe_name Archive.stem_of Archive.before_dot Archive.is_device_stem Archive.is_sha1
    Archive.target_of contains text_eq text_lt chars chars_from has_control contains_byte
    ends_with_byte
archive_manifest-accepted = refl

archive_manifest_iff_example : IsArchiveManifest archive_manifest
archive_manifest_iff_example = (archive_manifest_iff archive_manifest).0 archive_manifest-accepted

validate_asset_panics_example : Archive.validate_asset emoji_asset none [] ≡ err panicked
unfolding Archive.canonical_uuid_v4 Archive.all_indexed Archive.is_unsafe_name Archive.before_dot
    text_eq chars chars_from has_control contains_byte ends_with_byte
validate_asset_panics_example =
    validate_asset_panics emoji_asset none [] 240 159 152 128 refl refl refl refl

migration_plan-accepted : Migration.validate sample_platform migration_plan ≡ ok tt
unfolding Migration.validate Migration.check_header Migration.server_valid Migration.lower_hex
    Migration.validate_assets Migration.scan_assets Migration.validate_asset Migration.uuid_v4
    Migration.portable_file_name Migration.valid_unix_ms Migration.validate_albums
    Migration.validate_album Migration.expected_summary Migration.media_bytes_of
    Migration.summary_eq Archive.all_indexed check_roles check_role match_video metadata_is_valid
    valid_album valid_text contains text_eq text_lt chars chars_from has_control contains_byte
    ends_with_byte Map.insert Map.get
migration_plan-accepted = refl

migration_plan_iff_example : IsMigrationPlan sample_platform migration_plan
migration_plan_iff_example =
    (migration_plan_iff sample_platform migration_plan).0 migration_plan-accepted

IsConfirmation-iff_example : Production.new true digest_a 6 (str "backup 7") ≡ ok confirmation
unfolding Production.is_lower_sha256 is_trimmed chars chars_from has_control
IsConfirmation-iff_example = (IsConfirmation-iff true digest_a 6 (str "backup 7") confirmation).1 (
  refl,
  refl,
  record {
    digest = refl;
    budget = omega arith;
    named = ground arith;
    bounded = omega arith;
    trimmed = refl;
    printable = refl;
  },
)
