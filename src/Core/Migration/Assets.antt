-- ===== src/Core/Migration/Assets.antt =====
-- migration.rs, `validate_assets`: the accepted asset lists.
use immich_rs.Common.{
  refl, AllSome, Ascends-iff, none, some, arith, ◌<◌, >>=-eq-ok, Distinct, ◌∷◌, false, [], All,
  Before, true, map, AllPairs, not_after, Ascends, ok, ◌≡◌, Option, List, Text,
}
use immich_rs.Common.Map
use immich_rs.Common.Map.{
  contains_key, Map, NewKeys, NewKeys-iff, insert_all, keys_of, keys_of_pairs,
}
use immich_rs.Core.Platform.{Platform}
use immich_rs.Core.Roles.{UploadRole, RoleMet, check_roles, check_roles_iff}
use immich_rs.Core.Metadata.{metadata_is_valid, NormalizedMetadata}
use immich_rs.Core.Migration.{
  invalid_live_photo_dependency, valid_unix_ms, portable_file_name, MigrationAsset, validate_asset,
  scan_assets, validate_assets, lower_hex, uuid_v4,
}

-- Migrated metadata is valid and leaves the albums to the plan's own list.
abbrev pub IsAssetMetadata : Platform → NormalizedMetadata → Type 0
IsAssetMetadata platform m = (metadata_is_valid platform m ≡ true) × (m.albums ≡ [])

pub record IsMigrationAsset (platform : Platform) (asset : MigrationAsset) : Type 0 where
  pub source_identity : uuid_v4 asset.source_asset_id ≡ true
  pub operation : lower_hex asset.operation_id 64 ≡ true
  pub file_name : portable_file_name asset.original_file_name ≡ true
  pub nonempty : 0 < asset.byte_len
  pub sha1 : lower_hex asset.checksum_sha1 40 ≡ true
  pub sha256 : lower_hex asset.content_sha256 64 ≡ true
  pub created : valid_unix_ms platform asset.created_at_unix_ms ≡ true
  pub modified : valid_unix_ms platform asset.modified_at_unix_ms ≡ true
  pub metadata : AllSome (IsAssetMetadata platform) asset.normalized_metadata

abbrev pub source_ids : List MigrationAsset → List Text
source_ids assets = map (λ (a : MigrationAsset). a.source_asset_id) assets

abbrev pub operation_ids : List MigrationAsset → List Text
operation_ids assets = map (λ (a : MigrationAsset). a.operation_id) assets

abbrev pub roles_of : List MigrationAsset → List UploadRole
roles_of assets = map (λ (a : MigrationAsset). a.role) assets

abbrev pub entries_of : List MigrationAsset → List (Text × UploadRole)
entries_of assets = map (λ (a : MigrationAsset). (a.operation_id, a.role)) assets

module _ (platform : Platform) (previous : Option Text) (known : Map UploadRole) where
  validate_asset_sound :
      (asset : MigrationAsset) {r : Map UploadRole}
      → validate_asset platform previous known asset ≡ ok r
      → (r ≡ Map.insert asset.operation_id asset.role known)
        × (not_after previous asset.source_asset_id ≡ false)
        × (contains_key asset.operation_id known ≡ false)
        × IsMigrationAsset platform asset
  unfolding validate_asset
  validate_asset_sound asset h = (
    ground arith,
    ground arith,
    ground arith,
    record {
      source_identity = ground arith;
      operation = ground arith;
      file_name = ground arith;
      nonempty = ground arith;
      sha1 = ground arith;
      sha256 = ground arith;
      created = ground arith;
      modified = ground arith;
      metadata = ground arith;
    },
  )

  validate_asset_complete :
      (asset : MigrationAsset)
      → not_after previous asset.source_asset_id ≡ false
      → contains_key asset.operation_id known ≡ false
      → IsMigrationAsset platform asset
      → validate_asset platform previous known asset
        ≡ ok (Map.insert asset.operation_id asset.role known)
  unfolding validate_asset
  validate_asset_complete asset sorted fresh v = ground arith

module _ (platform : Platform) where
  scan_assets_sound :
      (previous : Option Text) (known : Map UploadRole) (assets : List MigrationAsset)
      {r : Map UploadRole}
      → scan_assets platform previous known assets ≡ ok r
      → (r ≡ insert_all (entries_of assets) known)
        × Ascends previous (source_ids assets)
        × NewKeys known (entries_of assets)
        × All (IsMigrationAsset platform) assets
  unfolding scan_assets insert_all
  scan_assets_sound previous known [] h = (ground arith, tt, tt, tt)
  scan_assets_sound previous known (asset ∷ rest) h =
      let (next, step, later) = >>=-eq-ok (validate_asset platform previous known asset) _ h in
      let (e, sorted, fresh, good) = validate_asset_sound platform previous known asset step in
      let (same, a, f, o) = scan_assets_sound (some asset.source_asset_id) next rest later in
      (rw e at same, (sorted, a), (fresh, rw e at f), (good, o))

  scan_assets_complete :
      (previous : Option Text) (known : Map UploadRole) (assets : List MigrationAsset)
      → Ascends previous (source_ids assets)
      → NewKeys known (entries_of assets)
      → All (IsMigrationAsset platform) assets
      → scan_assets platform previous known assets ≡ ok (insert_all (entries_of assets) known)
  unfolding scan_assets insert_all
  scan_assets_complete previous known [] a f o = refl
  scan_assets_complete previous known (asset ∷ rest) a f o =
      rw (validate_asset_complete platform previous known asset a.0 f.0 o.0) (
        scan_assets_complete (some asset.source_asset_id)
          (Map.insert asset.operation_id asset.role known) rest a.1 f.1 o.1)

-- What the asset half of a migration plan satisfies.
pub record AreMigrationAssets (platform : Platform) (assets : List MigrationAsset) : Type 0 where
  pub ordered : AllPairs Before (source_ids assets)
  pub distinct : Distinct (operation_ids assets)
  pub each : All (IsMigrationAsset platform) assets
  pub live_photos : All (RoleMet (entries_of assets)) (roles_of assets)

pub keys-entries :
    (assets : List MigrationAsset) → keys_of (entries_of assets) ≡ operation_ids assets
keys-entries assets =
    keys_of_pairs (λ (a : MigrationAsset). a.operation_id) (λ (a : MigrationAsset). a.role) assets

pub validate_assets_sound :
    (platform : Platform) (assets : List MigrationAsset) {r : Map UploadRole}
    → validate_assets platform assets ≡ ok r
    → (r ≡ insert_all (entries_of assets) []) × AreMigrationAssets platform assets
unfolding validate_assets
validate_assets_sound platform assets h =
    let (known, scanned, rest) = >>=-eq-ok (scan_assets platform none [] assets) _ h in
    let (same, a, f, o) = scan_assets_sound platform none [] assets scanned in
    let (_, met, last) =
      >>=-eq-ok (check_roles invalid_live_photo_dependency (roles_of assets) known) _ rest in
    let distinct = (NewKeys-iff (entries_of assets)).0 f in
    (
      ground (arith, same),
      record {
        ordered = (Ascends-iff (source_ids assets)).0 a;
        distinct = rw (keys-entries assets) at distinct;
        each = o;
        live_photos =
            (check_roles_iff invalid_live_photo_dependency (entries_of assets) (roles_of assets)
                distinct).0
              (rw same at met);
      },
    )

pub validate_assets_complete :
    (platform : Platform) (assets : List MigrationAsset)
    → AreMigrationAssets platform assets
    → validate_assets platform assets ≡ ok (insert_all (entries_of assets) [])
unfolding validate_assets
validate_assets_complete platform assets v =
    let distinct : Distinct (keys_of (entries_of assets)) = rw (keys-entries assets) v.distinct in
    rw (
      scan_assets_complete platform none [] assets ((Ascends-iff (source_ids assets)).1 v.ordered)
          ((NewKeys-iff (entries_of assets)).1 distinct) v.each,
      (check_roles_iff invalid_live_photo_dependency (entries_of assets) (roles_of assets)
            distinct).1
          v.live_photos,
    )
