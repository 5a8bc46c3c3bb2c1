-- ===== src/Core/Planning.antt =====
-- crates/immich-core/src/planning.rs: the normalized plan of a read-only scan and its validator.
pub mod Sound
use immich_rs.Common.{
  ℕ, ◌+◌, Bool, true, false, not, ◌&&◌, ◌||◌, Option, none, some, List, [], ◌∷◌, Text, text_eq,
  text_lt, ltb, ◌==◌, length, any, all, windows_all, is_some_and, is_some, wrap_u64, contains,
  not_after, Result, ok, err, ◌>>=◌, ◌>>◌, refuse_if, if◌then◌else◌,
}
use immich_rs.Core.Platform.{Platform}
use immich_rs.Core.Metadata.{NormalizedMetadata, is_empty, metadata_is_valid}

pub data SourceKind : Type 0 where
  folder google_takeout apple_photos picasa immich : SourceKind

pub data UnicodeNormalization : Type 0 where
  nfc : UnicodeNormalization

pub record SourceDescriptor : Type 0 where
  pub kind : SourceKind
  pub label : Text
  pub fingerprint_sha256 : Text
  pub case_sensitive : Bool
  pub unicode_normalization : UnicodeNormalization

pub data MediaKind : Type 0 where
  image video : MediaKind

pub data MetadataKind : Type 0 where
  json xmp : MetadataKind

pub data LivePhotoRole : Type 0 where
  image video : LivePhotoRole

pub record RuleEvidence : Type 0 where
  pub rule_id : Text
  pub outcome : Text

pub record MetadataCandidate : Type 0 where
  pub relative_path : Text
  pub kind : MetadataKind
  pub rule_id : Text

pub record LivePhotoMember : Type 0 where
  pub pair_id : Text
  pub role : LivePhotoRole

pub record CandidateAsset : Type 0 where
  pub operation_id : Text
  pub relative_path : Text
  pub media_kind : MediaKind
  pub byte_len : ℕ
  pub content_sha256 : Text
  pub metadata : List MetadataCandidate
  pub normalized_metadata : Option NormalizedMetadata
  pub live_photo : Option LivePhotoMember
  pub evidence : List RuleEvidence

pub record PlanDiagnostic : Type 0 where
  pub rule_id : Text
  pub code : Text
  pub paths : List Text

pub record PlanSummary : Type 0 where
  pub assets : ℕ
  pub sidecars : ℕ
  pub bytes_read : ℕ

pub record NormalizedPlan : Type 0 where
  pub schema_version : ℕ
  pub source : SourceDescriptor
  pub assets : List CandidateAsset
  pub warnings : List PlanDiagnostic
  pub errors : List PlanDiagnostic
  pub summary : PlanSummary

pub data PlanValidationError : Type 0 where
  unsupported_schema : ℕ → PlanValidationError
  invalid_schema_source invalid_source_descriptor invalid_asset_identity : PlanValidationError
  assets_not_strictly_sorted duplicate_operation_id missing_rule_id : PlanValidationError
  invalid_normalized_metadata summary_mismatch : PlanValidationError

-- `SourceKind: Eq`
unfoldable pub kind_eq : SourceKind → SourceKind → Bool
kind_eq folder folder = true
kind_eq google_takeout google_takeout = true
kind_eq apple_photos apple_photos = true
kind_eq picasa picasa = true
kind_eq immich immich = true
kind_eq _ _ = false

-- The derived order on `Vec<String>` and on `PlanDiagnostic`: field by field.
unfoldable pub texts_lt : List Text → List Text → Bool
texts_lt [] [] = false
texts_lt [] (_ ∷ _) = true
texts_lt (_ ∷ _) [] = false
texts_lt (x ∷ xs) (y ∷ ys) = text_lt x y || (text_eq x y && texts_lt xs ys)

unfoldable pub diagnostic_lt : PlanDiagnostic → PlanDiagnostic → Bool
unfolding texts_lt
diagnostic_lt a b =
    text_lt a.rule_id b.rule_id
    || (text_eq a.rule_id b.rule_id
        && (text_lt a.code b.code || (text_eq a.code b.code && texts_lt a.paths b.paths)))

abbrev pub diagnostic_le : PlanDiagnostic → PlanDiagnostic → Bool
diagnostic_le a b = not (diagnostic_lt b a)

unfoldable pub check_schema : NormalizedPlan → Result PlanValidationError (Unit {0})
unfolding kind_eq
check_schema plan = do
  refuse_if (not (v == 1 || (v == 2 || (v == 3 || v == 4)))) (unsupported_schema v)
  refuse_if (v == 2 && not (kind_eq kind google_takeout)) invalid_schema_source
  refuse_if (v == 3 && not (kind_eq kind apple_photos)) invalid_schema_source
  refuse_if (v == 4 && not (kind_eq kind picasa)) invalid_schema_source
  refuse_if (kind_eq kind apple_photos && not (v == 3)) invalid_schema_source
  refuse_if (kind_eq kind picasa && not (v == 4)) invalid_schema_source
  refuse_if (kind_eq kind immich) invalid_schema_source
  refuse_if (is_empty plan.source.label || not (length plan.source.fingerprint_sha256 == 64))
      invalid_source_descriptor
  where
    v : ℕ
    v = plan.schema_version

    kind : SourceKind
    kind = plan.source.kind

-- `self.assets.iter().map(|asset| asset.metadata.len() as u64).sum::<u64>()`
unfoldable pub sidecar_count : List CandidateAsset → ℕ
sidecar_count [] = 0
sidecar_count (asset ∷ rest) = wrap_u64 (length asset.metadata + sidecar_count rest)

unfoldable pub check_summary : NormalizedPlan → Result PlanValidationError (Unit {0})
unfolding diagnostic_lt sidecar_count
check_summary plan =
    refuse_if
      (not (plan.summary.assets == length plan.assets)
        || (not (plan.summary.sidecars == sidecar_count plan.assets)
            || (not (windows_all diagnostic_le plan.warnings)
                || not (windows_all diagnostic_le plan.errors))))
      summary_mismatch

module _ (platform : Platform) where
  -- The body of the loop over the assets.
  unfoldable pub check_asset :
      ℕ → Option Text → List Text → CandidateAsset → Result PlanValidationError (List Text)
  check_asset version previous_path operation_ids asset = do
    refuse_if
        (is_empty asset.relative_path
          || (not (length asset.operation_id == 64) || not (length asset.content_sha256 == 64)))
        invalid_asset_identity
    refuse_if (not_after previous_path asset.relative_path) assets_not_strictly_sorted
    refuse_if (contains asset.operation_id operation_ids) duplicate_operation_id
    refuse_if
        (any (λ e. is_empty e.rule_id) asset.evidence
          || any (λ m. is_empty m.rule_id) asset.metadata)
        missing_rule_id
    refuse_if
        ((version == 1 && is_some asset.normalized_metadata)
          || is_some_and asset.normalized_metadata (λ m. not (metadata_is_valid platform m)))
        invalid_normalized_metadata
    ok (asset.operation_id ∷ operation_ids)

  unfoldable pub scan_assets :
      ℕ → Option Text → List Text → List CandidateAsset → Result PlanValidationError (Unit {0})
  scan_assets version previous_path operation_ids [] = ok tt
  scan_assets version previous_path operation_ids (asset ∷ rest) = do
    seen ← check_asset version previous_path operation_ids asset
    scan_assets version (some asset.relative_path) seen rest

  unfoldable pub validate : NormalizedPlan → Result PlanValidationError (Unit {0})
  validate plan = do
    check_schema plan
    scan_assets plan.schema_version none [] plan.assets
    check_summary plan
