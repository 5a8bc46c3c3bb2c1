-- ===== src/Core/Samples.antt =====
-- Small plans of each kind, for the witnesses and the tests.
use immich_rs.Core.Metadata.{NormalizedMetadata}
use immich_rs.Core.Roles.{live_photo_video, live_photo_image, standalone}
use immich_rs.Core.Platform.{Platform}
use immich_rs.Core.Migration.{MigrationAsset, MigrationPlan}
use immich_rs.Core.Production.{ProductionWriteConfirmation}
use immich_rs.Core.Planning.{
  nfc, MetadataKind, google_takeout, MediaKind, NormalizedPlan, SourceDescriptor, CandidateAsset,
}
use immich_rs.Core.Archive.{ArchiveAsset, ArchiveManifest}
use immich_rs.Core.Upload.{ServerCompatibility, UploadPlan, UploadOperation}
use immich_rs.Common.{leb, negsuc, ◌==◌, pos, length, true, none, ◌∷◌, some, List, ℕ, Text, str, []}

abbrev pub sample_platform : Platform
sample_platform = record {
  Instant = Text;
  parse_rfc3339 = λ value. some value;
  format_rfc3339 = λ instant. some instant;
  Float = ℕ;
  parse_f64 = λ value. some (length value);
  is_zero = λ number. number == 0;
  show_f64 = λ number. [];
  is_finite = λ number. true;
  le_f64 = leb;
  plus = λ n. n;
  minus = λ n. 0;
  valid_unix_nanos = λ nanos. true;
}

abbrev pub digest_a : Text
digest_a = str "aaaaaaaaaaaaaaaaaaaaaaaaaaaaaaaaaaaaaaaaaaaaaaaaaaaaaaaaaaaaaaaa"

abbrev pub digest_b : Text
digest_b = str "bbbbbbbbbbbbbbbbbbbbbbbbbbbbbbbbbbbbbbbbbbbbbbbbbbbbbbbbbbbbbbbb"

abbrev pub sha1_c : Text
sha1_c = str "cccccccccccccccccccccccccccccccccccccccc"

abbrev pub asset_1 : Text
asset_1 = str "11111111-1111-4111-8111-111111111111"

abbrev pub asset_2 : Text
asset_2 = str "22222222-2222-4222-9222-222222222222"

abbrev pub album_metadata : NormalizedMetadata
album_metadata = record {
  description = some (str "A walk");
  taken_at_utc = none;
  location = none;
  albums = str "Holidays" ∷ [];
}

abbrev pub compatibility_a : ServerCompatibility
compatibility_a = record {
  version = record { major = 3; minor = 1; patch = 0 };
  identity_sha256 = digest_a;
}

abbrev pub compatibility_b : ServerCompatibility
compatibility_b = record compatibility_a { identity_sha256 = digest_b }

-- A live photo: the video first in path order, then the image that names it.
abbrev pub photo_video : UploadOperation
photo_video = record {
  operation_id = digest_a;
  relative_path = str "a.mov";
  media_kind = MediaKind.video;
  byte_len = 7;
  content_sha256 = digest_b;
  created_at_unix_ms = pos 0;
  modified_at_unix_ms = pos 0;
  xmp_sidecar = none;
  normalized_metadata = some album_metadata;
  role = live_photo_video (str "p");
}

abbrev pub photo_image : UploadOperation
photo_image = record photo_video {
  operation_id = digest_b;
  relative_path = str "b.jpg";
  media_kind = MediaKind.image;
  byte_len = 5;
  role = live_photo_image (str "p") digest_a;
}

abbrev pub photo_operations : List UploadOperation
photo_operations = photo_video ∷ photo_image ∷ []

abbrev pub takeout_source : SourceDescriptor
takeout_source = record {
  kind = google_takeout;
  label = str "takeout";
  fingerprint_sha256 = digest_a;
  case_sensitive = true;
  unicode_normalization = nfc;
}

abbrev pub upload_plan : UploadPlan
upload_plan = record {
  schema_version = 2;
  normalized_plan_sha256 = digest_a;
  source = takeout_source;
  configuration_sha256 = digest_b;
  server = compatibility_a;
  operations = photo_operations;
  summary = record {
    operations = 2;
    media_bytes = 12;
    xmp_sidecars = 0;
    live_photo_pairs = 1;
    metadata_updates = 2;
    album_creates = 1;
    album_memberships = 1;
    max_mutations = 6;
  };
}

abbrev pub candidate : CandidateAsset
candidate = record {
  operation_id = digest_a;
  relative_path = str "a.mov";
  media_kind = MediaKind.video;
  byte_len = 7;
  content_sha256 = digest_b;
  metadata =
      record { relative_path = str "a.json"; kind = MetadataKind.json; rule_id = str "r" } ∷ [];
  normalized_metadata = some album_metadata;
  live_photo = none;
  evidence = record { rule_id = str "r"; outcome = str "kept" } ∷ [];
}

abbrev pub normalized_plan : NormalizedPlan
normalized_plan = record {
  schema_version = 2;
  source = takeout_source;
  assets = candidate ∷ [];
  warnings = [];
  errors = [];
  summary = record { assets = 1; sidecars = 1; bytes_read = 7 };
}

abbrev pub archive_asset : ArchiveAsset
archive_asset = record {
  asset_id = asset_1;
  original_file_name = str "a.jpg";
  target_path = str "assets/11111111-1111-4111-8111-111111111111/a.jpg";
  media_kind = MediaKind.image;
  byte_len = 5;
  checksum_sha1 = sha1_c;
}

abbrev pub archive_manifest : ArchiveManifest
archive_manifest = record {
  schema_version = 1;
  server = compatibility_a;
  configuration_sha256 = digest_a;
  assets = archive_asset ∷ [];
  summary = record { assets = 1; media_bytes = 5 };
}

-- One character of four bytes, then `.jpg`.
abbrev pub emoji_asset : ArchiveAsset
emoji_asset = record archive_asset { original_file_name = 240 ∷ 159 ∷ 152 ∷ 128 ∷ str ".jpg" }

abbrev pub migration_asset : MigrationAsset
migration_asset = record {
  source_asset_id = asset_1;
  operation_id = digest_a;
  original_file_name = str "a.jpg";
  media_kind = MediaKind.image;
  byte_len = 5;
  checksum_sha1 = sha1_c;
  content_sha256 = digest_b;
  created_at_unix_ms = pos 0;
  modified_at_unix_ms = negsuc 0;
  normalized_metadata = none;
  role = standalone;
}

abbrev pub migration_plan : MigrationPlan
migration_plan = record {
  schema_version = 1;
  source_server = record { compatibility = compatibility_a; origin_sha256 = digest_a };
  destination_server = record { compatibility = compatibility_b; origin_sha256 = digest_b };
  source_fingerprint_sha256 = digest_a;
  configuration_sha256 = digest_b;
  assets = migration_asset ∷ [];
  albums = record { name = str "Holidays"; member_operation_ids = digest_a ∷ [] } ∷ [];
  summary = record {
    assets = 1;
    media_bytes = 5;
    metadata_updates = 0;
    album_creates = 1;
    album_memberships = 1;
    max_mutations = 3;
  };
}

abbrev pub confirmation : ProductionWriteConfirmation
confirmation = record {
  plan_sha256 = digest_a;
  expected_operations = 6;
  backup_reference = str "backup 7";
}
