-- ===== src/Core/Archive.antt =====
-- crates/immich-core/src/archive.rs: the archive manifest, its validator and the apply report.
pub mod Components
pub mod Sound
use immich_rs.Core.Metadata.{is_empty}
use immich_rs.Common.{
  refused, Failure, panicked, map, has_control, has_separator, false, not_after, ends_with_byte,
  is_lower_hexdigit, u64_max, contains, is_ascii_digit, ltb, all, sat_add, ◌||◌, [], none, ◌-◌, ◌+◌,
  some, ◌&&◌, text_eq, ok, err, true, within, ◌>>=◌, leb, length, not, ◌++◌, ◌==◌, List, Bool,
  Option, Result, refuse_if, ◌>>◌, if◌then◌else◌, ◌∷◌, str, ℕ, Text,
}
use immich_rs.Core.Upload.{ServerCompatibility}
use immich_rs.Core.Planning.{MediaKind}

pub record ArchiveAsset : Type 0 where
  pub asset_id : Text
  pub original_file_name : Text
  pub target_path : Text
  pub media_kind : MediaKind
  pub byte_len : ℕ
  pub checksum_sha1 : Text

pub record ArchiveManifestSummary : Type 0 where
  pub assets : ℕ
  pub media_bytes : ℕ

pub record ArchiveManifest : Type 0 where
  pub schema_version : ℕ
  pub server : ServerCompatibility
  pub configuration_sha256 : Text
  pub assets : List ArchiveAsset
  pub summary : ArchiveManifestSummary

pub record ArchiveApplyReport : Type 0 where
  pub schema_version : ℕ
  pub manifest_sha256 : Text
  pub downloaded : ℕ
  pub already_complete : ℕ
  pub bytes_written : ℕ
  pub retries : ℕ

pub data ArchiveManifestValidationError : Type 0 where
  unsupported_schema : ℕ → ArchiveManifestValidationError
  invalid_identity invalid_asset duplicate_asset_id : ArchiveManifestValidationError
  assets_not_strictly_sorted summary_mismatch invalid_report : ArchiveManifestValidationError

-- `safe_component` slices a string, which can panic.
abbrev Check : Type 0 → Type 0
Check A = Result (Failure ArchiveManifestValidationError) A

abbrev refuse : Bool → ArchiveManifestValidationError → Check (Unit {0})
refuse test e = refuse_if test (refused e)

unfoldable pub is_sha256 : Text → Bool
is_sha256 value = length value == 64 && all is_lower_hexdigit value

unfoldable pub is_sha1 : Text → Bool
is_sha1 value = length value == 40 && all is_lower_hexdigit value

-- One `(index, byte)` of the identifier.
abbrev pub uuid_byte : ℕ → ℕ → Bool
uuid_byte index byte =
    if index == 8 || (index == 13 || (index == 18 || index == 23))
    then byte == b'-'
    else if index == 14
    then byte == b'4'
    else if index == 19
    then byte == b'8' || (byte == b'9' || (byte == b'a' || byte == b'b'))
    else is_lower_hexdigit byte

unfoldable pub all_indexed : (ℕ → ℕ → Bool) → ℕ → Text → Bool
all_indexed p index [] = true
all_indexed p index (b ∷ rest) = p index b && all_indexed p (index + 1) rest

unfoldable pub canonical_uuid_v4 : Text → Bool
unfolding all_indexed
canonical_uuid_v4 value = length value == 36 && all_indexed uuid_byte 0 value

-- `value.split('.').next()`: what stands before the first dot.
unfoldable pub before_dot : Text → Text
before_dot [] = []
before_dot (b ∷ rest) = if b == b'.' then [] else b ∷ before_dot rest

abbrev pub to_ascii_uppercase : ℕ → ℕ
to_ascii_uppercase b = if within b'a' b'z' b then b - 32 else b

-- A byte inside a character: `&stem[..3]` panics where the fourth byte is one.
abbrev pub is_continuation : ℕ → Bool
is_continuation b = within 128 191 b

-- The last expression of `safe_component`, negated: CON, PRN, AUX and NUL, COM1 to COM9 and LPT1
-- to LPT9. The slice is taken of stems of four bytes only.
unfoldable pub is_device_stem : Text → Check Bool
is_device_stem (a ∷ b ∷ c ∷ []) =
    let s = a ∷ b ∷ c ∷ [] in
    ok (
      text_eq s (str "CON")
      || (text_eq s (str "PRN") || (text_eq s (str "AUX") || text_eq s (str "NUL"))))
is_device_stem (a ∷ b ∷ c ∷ d ∷ []) =
    let s = a ∷ b ∷ c ∷ [] in
    if is_continuation d
    then err panicked
    else ok
        ((text_eq s (str "COM") || text_eq s (str "LPT")) && (is_ascii_digit d && not (d == b'0')))
is_device_stem _ = ok false

-- The tests before the stem is looked at.
unfoldable pub is_unsafe_name : Text → Bool
is_unsafe_name value =
    is_empty value
    || (ltb 255 (length value)
        || (text_eq value (str ".")
            || (text_eq value (str "..")
                || ((ends_with_byte b'.' value || ends_with_byte b' ' value)
                    || (has_separator value || has_control value)))))

unfoldable pub stem_of : Text → Text
unfolding before_dot
stem_of value = map to_ascii_uppercase (before_dot value)

unfoldable pub safe_component : Text → Check Bool
safe_component value =
    if is_unsafe_name value
    then ok false
    else do device ← is_device_stem (stem_of value); ok (not device)

-- `format!("assets/{}/{}", asset.asset_id, asset.original_file_name)`
unfoldable pub target_of : ArchiveAsset → Text
target_of asset = str "assets/" ++ (asset.asset_id ++ (str "/" ++ asset.original_file_name))

unfoldable pub validate_asset : ArchiveAsset → Option Text → List Text → Check (List Text)
validate_asset asset previous_path ids = do
  refuse (not (canonical_uuid_v4 asset.asset_id)) invalid_asset
  safe ← safe_component asset.original_file_name
  refuse
      (not safe
        || (not (is_sha1 asset.checksum_sha1) || not (text_eq asset.target_path (target_of asset))))
      invalid_asset
  refuse (contains asset.asset_id ids) duplicate_asset_id
  refuse (not_after previous_path asset.target_path) assets_not_strictly_sorted
  ok (asset.asset_id ∷ ids)

-- `u64::checked_add`
abbrev pub checked_add : ℕ → ℕ → Option ℕ
checked_add a b = if leb (a + b) u64_max then some (a + b) else none

-- `.ok_or(SummaryMismatch)`
abbrev pub summed : Option ℕ → Check ℕ
summed none = err (refused summary_mismatch)
summed (some n) = ok n

unfoldable pub scan_assets : Option Text → List Text → ℕ → List ArchiveAsset → Check ℕ
scan_assets previous_path ids bytes [] = ok bytes
scan_assets previous_path ids bytes (asset ∷ rest) = do
  seen ← validate_asset asset previous_path ids
  total ← summed (checked_add bytes asset.byte_len)
  scan_assets (some asset.target_path) seen total rest

unfoldable pub check_header : ArchiveManifest → Check (Unit {0})
unfolding is_sha256
check_header manifest = do
  refuse (not (manifest.schema_version == 1)) (unsupported_schema manifest.schema_version)
  refuse
      (not (is_sha256 manifest.configuration_sha256)
        || (not (is_sha256 manifest.server.identity_sha256)
            || (not (manifest.server.version.major == 3)
                || not (manifest.server.version.minor == 1))))
      invalid_identity

unfoldable pub validate : ArchiveManifest → Check (Unit {0})
validate manifest = do
  check_header manifest
  bytes ← scan_assets none [] 0 manifest.assets
  refuse
      (not (
        manifest.summary.assets == length manifest.assets && manifest.summary.media_bytes == bytes))
      summary_mismatch

-- `ArchiveApplyReport::validate`
unfoldable pub validate_report :
    ArchiveApplyReport → ℕ → Result ArchiveManifestValidationError (Unit {0})
unfolding is_sha256
validate_report report expected_assets =
    refuse_if
      (not (report.schema_version == 1)
        || (not (is_sha256 report.manifest_sha256)
            || not (sat_add report.downloaded report.already_complete == expected_assets)))
      invalid_report
