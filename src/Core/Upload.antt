-- ===== src/Core/Upload.antt =====
-- crates/immich-core/src/upload.rs: the immutable upload plan and its validator.
pub mod Summary
pub mod Sound
use immich_rs.Core.Roles.{live_photo_image, check_roles, UploadRole}
use immich_rs.Core.Metadata.{metadata_is_valid, is_empty, has_metadata, NormalizedMetadata}
use immich_rs.Core.Planning.{
  immich, picasa, apple_photos, google_takeout, folder, kind_eq, SourceDescriptor, MediaKind,
}
use immich_rs.Common.{
  map, any, not_after, ◌||◌, ◌>>=◌, none, ◌>>◌, sat_mul, sat_add, is_some, is_ascii_hexdigit, err,
  is_some_and, all, ◌+◌, text_eq, count_if, wrap_u64, not, ◌&&◌, contains, false, [], if◌then◌else◌,
  ok, ◌==◌, length, true, ◌∷◌, refuse_if, ℤ, List, Option, Result, some, Bool, ℕ, Text,
}
use immich_rs.Core.Platform.{Platform}
use immich_rs.Common.Map
use immich_rs.Common.Map.{Map}

pub record ServerVersion : Type 0 where
  pub major : ℕ
  pub minor : ℕ
  pub patch : ℕ

pub record ServerCompatibility : Type 0 where
  pub version : ServerVersion
  pub identity_sha256 : Text

pub record UploadSidecar : Type 0 where
  pub relative_path : Text
  pub byte_len : ℕ
  pub content_sha256 : Text

pub record UploadOperation : Type 0 where
  pub operation_id : Text
  pub relative_path : Text
  pub media_kind : MediaKind
  pub byte_len : ℕ
  pub content_sha256 : Text
  pub created_at_unix_ms : ℤ
  pub modified_at_unix_ms : ℤ
  pub xmp_sidecar : Option UploadSidecar
  pub normalized_metadata : Option NormalizedMetadata
  pub role : UploadRole

pub record UploadPlanSummary : Type 0 where
  pub operations : ℕ
  pub media_bytes : ℕ
  pub xmp_sidecars : ℕ
  pub live_photo_pairs : ℕ
  pub metadata_updates : ℕ
  pub album_creates : ℕ
  pub album_memberships : ℕ
  pub max_mutations : ℕ

pub record UploadPlan : Type 0 where
  pub schema_version : ℕ
  pub normalized_plan_sha256 : Text
  pub source : SourceDescriptor
  pub configuration_sha256 : Text
  pub server : ServerCompatibility
  pub operations : List UploadOperation
  pub summary : UploadPlanSummary

pub data UploadPlanValidationError : Type 0 where
  unsupported_schema : ℕ → UploadPlanValidationError
  invalid_identity invalid_operation operations_not_strictly_sorted : UploadPlanValidationError
  duplicate_operation_id invalid_sidecar invalid_metadata : UploadPlanValidationError
  invalid_schema_source invalid_live_photo_dependency summary_mismatch : UploadPlanValidationError

abbrev Check : Type 0 → Type 0
Check A = Result UploadPlanValidationError A

unfoldable pub is_sha256 : Text → Bool
is_sha256 value = length value == 64 && all is_ascii_hexdigit value

-- `role` is a `LivePhotoImage`
abbrev pub is_image : UploadRole → Bool
is_image (live_photo_image _ _) = true
is_image _ = false

-- The `BTreeSet` that collects the albums, with one entry for each text.
unfoldable pub set_insert : Text → List Text → List Text
set_insert k s = if contains k s then s else k ∷ s

unfoldable pub set_extend : List Text → List Text → List Text
set_extend [] s = s
set_extend (k ∷ ks) s = set_extend ks (set_insert k s)

-- An operation without metadata contributes no album.
abbrev pub albums_of : Option NormalizedMetadata → List Text
albums_of none = []
albums_of (some metadata) = metadata.albums

unfoldable pub album_set : List UploadOperation → List Text → List Text
album_set [] s = s
album_set (op ∷ rest) s = album_set rest (set_extend (albums_of op.normalized_metadata) s)

-- `operations.iter().map(|operation| operation.byte_len).sum()`
unfoldable pub media_bytes_of : List UploadOperation → ℕ
media_bytes_of [] = 0
media_bytes_of (op ∷ rest) = wrap_u64 (op.byte_len + media_bytes_of rest)

unfoldable pub expected_summary : ℕ → List UploadOperation → UploadPlanSummary
unfolding album_set
expected_summary schema_version operations =
    let albums = length (album_set operations []) in
    let updates =
      count_if (λ (op : UploadOperation). is_some_and op.normalized_metadata has_metadata)
        operations in
    let count = length operations in
    let import = schema_version == 2 in
    let metadata_updates : ℕ = if import then updates else 0 in
    let album_count : ℕ = if import then albums else 0 in
    record {
      operations = count;
      media_bytes = media_bytes_of operations;
      xmp_sidecars = count_if (λ (op : UploadOperation). is_some op.xmp_sidecar) operations;
      live_photo_pairs = count_if (λ (op : UploadOperation). is_image op.role) operations;
      metadata_updates = metadata_updates;
      album_creates = album_count;
      album_memberships = album_count;
      max_mutations =
          if import then sat_add (sat_add count metadata_updates) (sat_mul album_count 2) else 0;
    }

-- `UploadPlanSummary: Eq`
unfoldable pub summary_eq : UploadPlanSummary → UploadPlanSummary → Bool
summary_eq a b =
    a.operations == b.operations
    && (a.media_bytes == b.media_bytes
        && (a.xmp_sidecars == b.xmp_sidecars
            && (a.live_photo_pairs == b.live_photo_pairs
                && (a.metadata_updates == b.metadata_updates
                    && (a.album_creates == b.album_creates
                        && (a.album_memberships == b.album_memberships
                            && a.max_mutations == b.max_mutations))))))

-- Schema, digests and source adapter, before any operation is looked at.
unfoldable pub check_header : UploadPlan → Check (Unit {0})
unfolding kind_eq is_sha256
check_header plan = do
  refuse_if (not (plan.schema_version == 1 || plan.schema_version == 2))
      (unsupported_schema plan.schema_version)
  refuse_if
      (not (is_sha256 plan.normalized_plan_sha256)
        || (not (is_sha256 plan.configuration_sha256)
            || (not (is_sha256 plan.source.fingerprint_sha256)
                || not (is_sha256 plan.server.identity_sha256))))
      invalid_identity
  refuse_if
      (not (
        if plan.schema_version == 1
        then kind_eq plan.source.kind folder
        else plan.schema_version == 2
          && (kind_eq plan.source.kind google_takeout
              || (kind_eq plan.source.kind apple_photos
                  || (kind_eq plan.source.kind picasa || kind_eq plan.source.kind immich)))))
      invalid_schema_source
  refuse_if
      (plan.schema_version == 1
        && any (λ (op : UploadOperation). is_some op.normalized_metadata) plan.operations)
      invalid_metadata

unfoldable pub validate_dependencies : List UploadOperation → Map UploadRole → Check (Unit {0})
validate_dependencies operations roles =
    check_roles invalid_live_photo_dependency (map (λ (op : UploadOperation). op.role) operations)
      roles

module _ (platform : Platform) where
  unfoldable pub validate_operation : UploadOperation → Option Text → List Text → Check (List Text)
  unfolding is_sha256
  validate_operation op previous_path ids = do
    refuse_if
        (is_empty op.relative_path
          || (not (is_sha256 op.operation_id)
              || (not (is_sha256 op.content_sha256) || op.byte_len == 0)))
        invalid_operation
    refuse_if (not_after previous_path op.relative_path) operations_not_strictly_sorted
    refuse_if (contains op.operation_id ids) duplicate_operation_id
    refuse_if
        (is_some_and op.xmp_sidecar λ sidecar.
          is_empty sidecar.relative_path
          || (sidecar.byte_len == 0 || not (is_sha256 sidecar.content_sha256)))
        invalid_sidecar
    refuse_if (is_some_and op.normalized_metadata (λ m. not (metadata_is_valid platform m)))
        invalid_metadata
    ok (op.operation_id ∷ ids)

  -- The loop of `validate`, which collects the identifiers and the roles.
  unfoldable pub scan_operations :
      Option Text → List Text → Map UploadRole → List UploadOperation → Check (Map UploadRole)
  scan_operations previous_path ids roles [] = ok roles
  scan_operations previous_path ids roles (op ∷ rest) = do
    seen ← validate_operation op previous_path ids
    scan_operations (some op.relative_path) seen (Map.insert op.operation_id op.role roles) rest

  unfoldable pub validate : UploadPlan → Check (Unit {0})
  validate plan = do
    check_header plan
    roles ← scan_operations none [] [] plan.operations
    validate_dependencies plan.operations roles
    refuse_if (not (summary_eq (expected_summary plan.schema_version plan.operations) plan.summary))
        summary_mismatch
