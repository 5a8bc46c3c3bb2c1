-- ===== src/Core/Migration.antt =====
-- crates/immich-core/src/migration.rs: the two-server migration plan and its validator.
pub mod Assets
pub mod Albums
pub mod Sound
use immich_rs.Core.Upload.{ServerCompatibility}
use immich_rs.Core.Roles.{UploadRole, check_roles}
use immich_rs.Core.Metadata.{metadata_is_valid, has_metadata, is_empty, NormalizedMetadata}
use immich_rs.Core.Archive.{all_indexed}
use immich_rs.Core.Planning.{MediaKind}
use immich_rs.Common.{
  any, map, text_lt, windows_all, none, false, true, not_after, scale_ℤ, ◌>>=◌, has_control,
  sat_mul, str, has_separator, sat_add, is_ascii_uppercase, err, leb, zero, is_some_and, all, [],
  is_ascii_hexdigit, text_eq, ◌+◌, not, ◌==◌, suc, ◌&&◌, ◌||◌, length, wrap_u64, some, count_if,
  refuse_if, ℤ, Result, Option, Bool, ok, ◌>>◌, ◌∷◌, List, ℕ, Text,
}
use immich_rs.Common.Map
use immich_rs.Common.Map.{contains_key, Map}
use immich_rs.Core.Platform.{Platform}

pub record MigrationServer : Type 0 where
  pub compatibility : ServerCompatibility
  pub origin_sha256 : Text

pub record MigrationAsset : Type 0 where
  pub source_asset_id : Text
  pub operation_id : Text
  pub original_file_name : Text
  pub media_kind : MediaKind
  pub byte_len : ℕ
  pub checksum_sha1 : Text
  pub content_sha256 : Text
  pub created_at_unix_ms : ℤ
  pub modified_at_unix_ms : ℤ
  pub normalized_metadata : Option NormalizedMetadata
  pub role : UploadRole

pub record MigrationAlbum : Type 0 where
  pub name : Text
  pub member_operation_ids : List Text

pub record MigrationPlanSummary : Type 0 where
  pub assets : ℕ
  pub media_bytes : ℕ
  pub metadata_updates : ℕ
  pub album_creates : ℕ
  pub album_memberships : ℕ
  pub max_mutations : ℕ

pub record MigrationPlan : Type 0 where
  pub schema_version : ℕ
  pub source_server : MigrationServer
  pub destination_server : MigrationServer
  pub source_fingerprint_sha256 : Text
  pub configuration_sha256 : Text
  pub assets : List MigrationAsset
  pub albums : List MigrationAlbum
  pub summary : MigrationPlanSummary

pub data MigrationPlanValidationError : Type 0 where
  unsupported_schema : ℕ → MigrationPlanValidationError
  invalid_identity invalid_asset assets_not_strictly_sorted : MigrationPlanValidationError
  invalid_live_photo_dependency invalid_album summary_mismatch : MigrationPlanValidationError

abbrev Check : Type 0 → Type 0
Check A = Result MigrationPlanValidationError A

unfoldable pub lower_hex : Text → ℕ → Bool
lower_hex value count =
    length value == count && all (λ b. is_ascii_hexdigit b && not (is_ascii_uppercase b)) value

-- `bytes[index]`; the length was tested before.
abbrev byte_at : ℕ → Text → ℕ
byte_at index [] = 0
byte_at zero (b ∷ _) = b
byte_at (suc index) (_ ∷ rest) = byte_at index rest

abbrev is_dash_index : ℕ → Bool
is_dash_index index = index == 8 || (index == 13 || (index == 18 || index == 23))

abbrev hex_outside_dashes : ℕ → ℕ → Bool
hex_outside_dashes index byte =
    is_dash_index index || (is_ascii_hexdigit byte && not (is_ascii_uppercase byte))

unfoldable pub uuid_v4 : Text → Bool
unfolding all_indexed
uuid_v4 value =
    length value == 36
    && (all (λ index. byte_at index value == b'-') (8 ∷ 13 ∷ 18 ∷ 23 ∷ [])
        && (byte_at 14 value == b'4'
            && ((byte_at 19 value == b'8'
                  || (byte_at 19 value == b'9'
                      || (byte_at 19 value == b'a' || byte_at 19 value == b'b')))
                && all_indexed hex_outside_dashes 0 value)))

unfoldable pub portable_file_name : Text → Bool
portable_file_name value =
    not (is_empty value)
    && (leb (length value) 4096
        && (not (has_separator value)
            && (not (text_eq value (str "."))
                && (not (text_eq value (str "..")) && not (has_control value)))))

unfoldable pub server_valid : MigrationServer → Bool
unfolding lower_hex
server_valid server =
    lower_hex server.compatibility.identity_sha256 64 && lower_hex server.origin_sha256 64

unfoldable pub media_bytes_of : List MigrationAsset → ℕ
media_bytes_of [] = 0
media_bytes_of (asset ∷ rest) = wrap_u64 (asset.byte_len + media_bytes_of rest)

unfoldable pub expected_summary : List MigrationAsset → List MigrationAlbum → MigrationPlanSummary
expected_summary assets albums =
    let updates =
      count_if (λ (a : MigrationAsset). is_some_and a.normalized_metadata has_metadata) assets in
    let count = length assets in
    let album_count = length albums in
    record {
      assets = count;
      media_bytes = media_bytes_of assets;
      metadata_updates = updates;
      album_creates = album_count;
      album_memberships = album_count;
      max_mutations = sat_add (sat_add count updates) (sat_mul album_count 2);
    }

-- `Vec::is_empty`
abbrev pub texts_empty : List Text → Bool
texts_empty [] = true
texts_empty (_ ∷ _) = false

-- `MigrationPlanSummary: Eq`
unfoldable pub summary_eq : MigrationPlanSummary → MigrationPlanSummary → Bool
summary_eq a b =
    a.assets == b.assets
    && (a.media_bytes == b.media_bytes
        && (a.metadata_updates == b.metadata_updates
            && (a.album_creates == b.album_creates
                && (a.album_memberships == b.album_memberships
                    && a.max_mutations == b.max_mutations))))

unfoldable pub check_header : MigrationPlan → Check (Unit {0})
unfolding server_valid
check_header plan = do
  refuse_if (not (plan.schema_version == 1)) (unsupported_schema plan.schema_version)
  refuse_if
      (not (server_valid plan.source_server)
        || (not (server_valid plan.destination_server)
            || (text_eq plan.source_server.origin_sha256 plan.destination_server.origin_sha256
                || (text_eq plan.source_server.compatibility.identity_sha256
                      plan.destination_server.compatibility.identity_sha256
                    || (not (lower_hex plan.source_fingerprint_sha256 64)
                        || not (lower_hex plan.configuration_sha256 64))))))
      invalid_identity

module _ (platform : Platform) where
  open platform use {valid_unix_nanos}

  -- An i64 times 1,000,000 fits into an i128, so the product does not saturate.
  unfoldable pub valid_unix_ms : ℤ → Bool
  valid_unix_ms value = valid_unix_nanos (scale_ℤ value 1_000_000)

  -- The body of the first loop of `validate_assets`; the identifier is inserted last.
  unfoldable pub validate_asset :
      Option Text → Map UploadRole → MigrationAsset → Check (Map UploadRole)
  validate_asset previous operations asset = do
    refuse_if (not_after previous asset.source_asset_id) assets_not_strictly_sorted
    refuse_if
        (not (uuid_v4 asset.source_asset_id)
          || (not (lower_hex asset.operation_id 64)
              || (not (portable_file_name asset.original_file_name)
                  || (asset.byte_len == 0
                      || (not (lower_hex asset.checksum_sha1 40)
                          || (not (lower_hex asset.content_sha256 64)
                              || (not (valid_unix_ms asset.created_at_unix_ms)
                                  || (not (valid_unix_ms asset.modified_at_unix_ms)
                                      || (is_some_and asset.normalized_metadata (λ m.
                                            not (metadata_is_valid platform m)
                                            || not (texts_empty m.albums))
                                          || contains_key asset.operation_id operations)))))))))
        invalid_asset
    ok (Map.insert asset.operation_id asset.role operations)

  unfoldable pub scan_assets :
      Option Text → Map UploadRole → List MigrationAsset → Check (Map UploadRole)
  scan_assets previous operations [] = ok operations
  scan_assets previous operations (asset ∷ rest) = do
    known ← validate_asset previous operations asset
    scan_assets (some asset.source_asset_id) known rest

  unfoldable pub validate_assets : List MigrationAsset → Check (Map UploadRole)
  validate_assets assets = do
    operations ← scan_assets none [] assets
    check_roles invalid_live_photo_dependency (map (λ (a : MigrationAsset). a.role) assets)
        operations
    ok operations

  -- The body of the loop of `validate_albums`.
  unfoldable pub validate_album : Option Text → Map UploadRole → MigrationAlbum → Check (Unit {0})
  validate_album previous operations album =
      refuse_if
        (not_after previous album.name
          || (not (
                metadata_is_valid platform (record {
                  description = none;
                  taken_at_utc = none;
                  location = none;
                  albums = album.name ∷ [];
                }))
              || (texts_empty album.member_operation_ids
                  || (not (windows_all text_lt album.member_operation_ids)
                      || any (λ operation. not (contains_key operation operations))
                          album.member_operation_ids))))
        invalid_album

  unfoldable pub validate_albums :
      Option Text → Map UploadRole → List MigrationAlbum → Check (Unit {0})
  validate_albums previous operations [] = ok tt
  validate_albums previous operations (album ∷ rest) = do
    validate_album previous operations album
    validate_albums (some album.name) operations rest

  unfoldable pub validate : MigrationPlan → Check (Unit {0})
  validate plan = do
    check_header plan
    operations ← validate_assets plan.assets
    validate_albums none operations plan.albums
    refuse_if (not (summary_eq (expected_summary plan.assets plan.albums) plan.summary))
        summary_mismatch
