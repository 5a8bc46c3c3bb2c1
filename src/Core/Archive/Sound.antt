-- ===== src/Core/Archive/Sound.antt =====
-- archive.rs, `ArchiveManifest::validate`: what an accepted manifest satisfies, and that nothing
-- else is required.
use immich_rs.Core.Archive.Components.{safe_component_sound, safe_component_complete, IsComponent}
use immich_rs.Common.{
  Fresh-iff, length, Distinct, Ascends-iff, Before, none, ◌↔◌, AllPairs, ◌∙◌, some, text_eq_iff, ap,
  >>=-eq-ok, All, Fresh, contains, Ascends, false, arith, u64_max, [], ok, not_after, true, ◌∷◌,
  ◌≡◌, ◌≤◌, map, Option, ◌+◌, List, ℕ, Text,
}
use immich_rs.Core.Archive.{
  is_sha256, check_header, validate, ArchiveManifest, target_of, is_sha1, checked_add,
  canonical_uuid_v4, scan_assets, validate_asset, summed, ArchiveAsset,
}

pub record IsArchiveAsset (asset : ArchiveAsset) : Type 0 where
  pub identity : canonical_uuid_v4 asset.asset_id ≡ true
  pub file_name : IsComponent asset.original_file_name
  pub checksum : is_sha1 asset.checksum_sha1 ≡ true
  pub target : asset.target_path ≡ target_of asset

validate_asset_sound :
    (previous : Option Text) (seen : List Text) (asset : ArchiveAsset) {r : List Text}
    → validate_asset asset previous seen ≡ ok r
    → (r ≡ asset.asset_id ∷ seen)
      × (not_after previous asset.target_path ≡ false)
      × (contains asset.asset_id seen ≡ false)
      × IsArchiveAsset asset
unfolding validate_asset
validate_asset_sound previous seen asset h = (
  ground arith,
  ground arith,
  ground arith,
  record {
    identity = ground arith;
    file_name = safe_component_sound asset.original_file_name (ground arith);
    checksum = ground arith;
    target = ground (arith, text_eq_iff asset.target_path (target_of asset));
  },
)

validate_asset_complete :
    (previous : Option Text) (seen : List Text) (asset : ArchiveAsset)
    → not_after previous asset.target_path ≡ false
    → contains asset.asset_id seen ≡ false
    → IsArchiveAsset asset
    → validate_asset asset previous seen ≡ ok (asset.asset_id ∷ seen)
unfolding validate_asset
validate_asset_complete previous seen asset sorted fresh v = ground (
  arith,
  safe_component_complete asset.original_file_name v.file_name,
  text_eq_iff asset.target_path (target_of asset),
)

abbrev pub target_paths : List ArchiveAsset → List Text
target_paths assets = map (λ (a : ArchiveAsset). a.target_path) assets

abbrev pub asset_ids : List ArchiveAsset → List Text
asset_ids assets = map (λ (a : ArchiveAsset). a.asset_id) assets

-- The bytes of all originals, not reduced to any width.
unfoldable pub total_bytes : List ArchiveAsset → ℕ
total_bytes [] = 0
total_bytes (asset ∷ rest) = asset.byte_len + total_bytes rest

summed_sound : (a b r : ℕ) → summed (checked_add a b) ≡ ok r → (r ≡ a + b) × (r ≤ u64_max)
summed_sound a b r h = (ground arith, ground arith)

summed_complete : (a b : ℕ) → a + b ≤ u64_max → summed (checked_add a b) ≡ ok (a + b)
summed_complete a b h = ground arith

scan_assets_sound :
    (previous : Option Text) (seen : List Text) (bytes : ℕ) (assets : List ArchiveAsset) {r : ℕ}
    → bytes ≤ u64_max
    → scan_assets previous seen bytes assets ≡ ok r
    → (r ≡ bytes + total_bytes assets)
      × (bytes + total_bytes assets ≤ u64_max)
      × Ascends previous (target_paths assets)
      × Fresh seen (asset_ids assets)
      × All IsArchiveAsset assets
unfolding scan_assets total_bytes
scan_assets_sound previous seen bytes [] b h = (ground arith, omega arith, tt, tt, tt)
scan_assets_sound previous seen bytes (asset ∷ rest) b h =
    let (ids, step, later) = >>=-eq-ok (validate_asset asset previous seen) _ h in
    let (e, sorted, fresh, good) = validate_asset_sound previous seen asset step in
    let (total, added, last) = >>=-eq-ok (summed (checked_add bytes asset.byte_len)) _ later in
    let (same, fits) = summed_sound bytes asset.byte_len total added in
    let (sum, bound, a, f, o) =
      scan_assets_sound (some asset.target_path) ids total rest fits last in
    (omega arith, omega arith, (sorted, a), (fresh, rw e at f), (good, o))

scan_assets_complete :
    (previous : Option Text) (seen : List Text) (bytes : ℕ) (assets : List ArchiveAsset)
    → bytes + total_bytes assets ≤ u64_max
    → Ascends previous (target_paths assets)
    → Fresh seen (asset_ids assets)
    → All IsArchiveAsset assets
    → scan_assets previous seen bytes assets ≡ ok (bytes + total_bytes assets)
unfolding scan_assets total_bytes
scan_assets_complete previous seen bytes [] b a f o = ap ok (omega arith)
scan_assets_complete previous seen bytes (asset ∷ rest) b a f o =
    rw
      (
        validate_asset_complete previous seen asset a.0 f.0 o.0,
        summed_complete bytes asset.byte_len (omega arith),
      )
      (scan_assets_complete (some asset.target_path) (asset.asset_id ∷ seen)
          (bytes + asset.byte_len) rest (omega arith) a.1 f.1 o.1
        ∙ ap ok (omega arith))

pub record IsHeader (manifest : ArchiveManifest) : Type 0 where
  pub schema : manifest.schema_version ≡ 1
  pub configuration : is_sha256 manifest.configuration_sha256 ≡ true
  pub identity : is_sha256 manifest.server.identity_sha256 ≡ true
  pub major : manifest.server.version.major ≡ 3
  pub minor : manifest.server.version.minor ≡ 1

-- What an archive manifest promises to the code that writes the originals to disk.
pub record IsArchiveManifest (manifest : ArchiveManifest) : Type 0 where
  pub header : IsHeader manifest
  pub ordered : AllPairs Before (target_paths manifest.assets)
  pub distinct : Distinct (asset_ids manifest.assets)
  pub assets : All IsArchiveAsset manifest.assets
  pub fits : total_bytes manifest.assets ≤ u64_max
  pub count : manifest.summary.assets ≡ length manifest.assets
  pub bytes : manifest.summary.media_bytes ≡ total_bytes manifest.assets

validate_sound :
    (manifest : ArchiveManifest) → validate manifest ≡ ok tt → IsArchiveManifest manifest
unfolding validate
validate_sound manifest h =
    let (_, first, second) = >>=-eq-ok (check_header manifest) _ h in
    let (bytes, scanned, last) = >>=-eq-ok (scan_assets none [] 0 manifest.assets) _ second in
    let (sum, fits, a, f, o) = scan_assets_sound none [] 0 manifest.assets (omega arith) scanned in
    record {
      header = unfold check_header in ground arith;
      ordered = (Ascends-iff (target_paths manifest.assets)).0 a;
      distinct = (Fresh-iff (asset_ids manifest.assets)).0 f;
      assets = o;
      fits = omega arith;
      count = ground arith;
      bytes = ground arith;
    }

validate_complete :
    (manifest : ArchiveManifest) → IsArchiveManifest manifest → validate manifest ≡ ok tt
unfolding validate check_header
validate_complete manifest v = ground (
  arith,
  scan_assets_complete none [] 0 manifest.assets (ground (arith, v.fits))
      ((Ascends-iff (target_paths manifest.assets)).1 v.ordered)
      ((Fresh-iff (asset_ids manifest.assets)).1 v.distinct) v.assets,
)

-- An archive manifest is accepted exactly when it satisfies `IsArchiveManifest`: the digests and the
-- server version are those required, target paths are in strict order, asset IDs are distinct, every
-- target is `assets/<id>/<name>` for a canonical ID and a safe file name, and the summary has the
-- exact count and byte total, which fits into a u64.
pub archive_manifest_iff :
    (manifest : ArchiveManifest) → (validate manifest ≡ ok tt) ↔ IsArchiveManifest manifest
archive_manifest_iff manifest = (validate_sound manifest, validate_complete manifest)
