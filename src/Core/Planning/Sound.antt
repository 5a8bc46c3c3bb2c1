-- ===== src/Core/Planning/Sound.antt =====
-- planning.rs: what an accepted normalized plan satisfies, and that nothing else is required.
use immich_rs.Common.{
  ◌↔◌, windows_all, Fresh-iff, Distinct, Ascends-iff, Before, refl, >>=-eq-ok, AllPairs, some,
  Fresh, Ascends, none-any, map, contains, false, not_after, ◌∷◌, List, Text, Option, ℕ, ◌≡◌, ◌⊎◌,
  true, none, [], arith, length, All, AllSome, ok, ◌≢◌,
}
use immich_rs.Common.{any-none}
use immich_rs.Core.Metadata.{is_empty}
use immich_rs.Core.Platform.{Platform}
use immich_rs.Core.Metadata.{metadata_is_valid}
use immich_rs.Core.Planning.{
  diagnostic_le, sidecar_count, check_summary, validate, scan_assets, check_asset, SourceKind,
  folder, google_takeout, apple_photos, picasa, CandidateAsset, NormalizedPlan, RuleEvidence,
  MetadataCandidate, check_schema,
}

-- Which adapter may write which schema version.
abbrev pub SchemaSource : ℕ → SourceKind → Type 0
SchemaSource version kind =
    ((version ≡ 1) × ((kind ≡ folder) ⊎ (kind ≡ google_takeout)))
    ⊎ (((version ≡ 2) × (kind ≡ google_takeout))
        ⊎ (((version ≡ 3) × (kind ≡ apple_photos)) ⊎ ((version ≡ 4) × (kind ≡ picasa))))

pub record IsHeader (plan : NormalizedPlan) : Type 0 where
  pub schema_source : SchemaSource plan.schema_version plan.source.kind
  pub labelled : plan.source.label ≢ []
  pub fingerprint : length plan.source.fingerprint_sha256 ≡ 64

pub record IsAsset (platform : Platform) (version : ℕ) (asset : CandidateAsset) : Type 0 where
  pub path : asset.relative_path ≢ []
  pub operation : length asset.operation_id ≡ 64
  pub digest : length asset.content_sha256 ≡ 64
  pub evidence : All (λ (e : RuleEvidence). e.rule_id ≢ []) asset.evidence
  pub metadata : All (λ (m : MetadataCandidate). m.rule_id ≢ []) asset.metadata
  pub first_schema : version ≡ 1 → asset.normalized_metadata ≡ none
  pub normalized : AllSome (λ m. metadata_is_valid platform m ≡ true) asset.normalized_metadata

check_schema_sound : (plan : NormalizedPlan) → check_schema plan ≡ ok tt → IsHeader plan
unfolding check_schema
check_schema_sound plan h = ground arith

check_schema_complete : (plan : NormalizedPlan) → IsHeader plan → check_schema plan ≡ ok tt
unfolding check_schema
check_schema_complete plan h = ground arith

module _ (platform : Platform) (version : ℕ) (previous : Option Text) (seen : List Text) where
  check_asset_sound :
      (asset : CandidateAsset) {r : List Text}
      → check_asset platform version previous seen asset ≡ ok r
      → (r ≡ asset.operation_id ∷ seen)
        × (not_after previous asset.relative_path ≡ false)
        × (contains asset.operation_id seen ≡ false)
        × IsAsset platform version asset
  unfolding check_asset
  check_asset_sound asset h = (
    ground arith,
    ground arith,
    ground arith,
    record {
      path = ground arith;
      operation = ground arith;
      digest = ground arith;
      evidence =
          any-none (λ (e : RuleEvidence). is_empty e.rule_id) _ asset.evidence (λ x e. ground arith)
            (ground arith);
      metadata =
          any-none (λ (e : MetadataCandidate). is_empty e.rule_id) _ asset.metadata
            (λ x e. ground arith) (ground arith);
      first_schema = ground arith;
      normalized = ground arith;
    },
  )

  check_asset_complete :
      (asset : CandidateAsset)
      → not_after previous asset.relative_path ≡ false
      → contains asset.operation_id seen ≡ false
      → IsAsset platform version asset
      → check_asset platform version previous seen asset ≡ ok (asset.operation_id ∷ seen)
  unfolding check_asset
  check_asset_complete asset sorted fresh a = ground (
    arith,
    none-any (λ (e : RuleEvidence). is_empty e.rule_id) (λ e. e.rule_id ≢ []) asset.evidence
        (λ x e. ground arith) a.evidence,
    none-any (λ (e : MetadataCandidate). is_empty e.rule_id) (λ e. e.rule_id ≢ []) asset.metadata
        (λ x e. ground arith) a.metadata,
  )

abbrev paths : List CandidateAsset → List Text
paths assets = map (λ (a : CandidateAsset). a.relative_path) assets

abbrev operation_ids : List CandidateAsset → List Text
operation_ids assets = map (λ (a : CandidateAsset). a.operation_id) assets

module _ (platform : Platform) (version : ℕ) where
  scan_assets_sound :
      (previous : Option Text) (seen : List Text) (assets : List CandidateAsset)
      → scan_assets platform version previous seen assets ≡ ok tt
      → Ascends previous (paths assets)
        × Fresh seen (operation_ids assets)
        × All (IsAsset platform version) assets
  unfolding scan_assets
  scan_assets_sound previous seen [] h = (tt, tt, tt)
  scan_assets_sound previous seen (asset ∷ rest) h =
      let (r, step, later) = >>=-eq-ok (check_asset platform version previous seen asset) _ h in
      let (e, sorted, fresh, good) = check_asset_sound platform version previous seen asset step in
      let (a, f, o) = scan_assets_sound (some asset.relative_path) r rest later in
      ((sorted, a), (fresh, rw e at f), (good, o))

  scan_assets_complete :
      (previous : Option Text) (seen : List Text) (assets : List CandidateAsset)
      → Ascends previous (paths assets)
      → Fresh seen (operation_ids assets)
      → All (IsAsset platform version) assets
      → scan_assets platform version previous seen assets ≡ ok tt
  unfolding scan_assets
  scan_assets_complete previous seen [] a f o = refl
  scan_assets_complete previous seen (asset ∷ rest) a f o =
      rw (check_asset_complete platform version previous seen asset a.0 f.0 o.0) (
        scan_assets_complete (some asset.relative_path) (asset.operation_id ∷ seen) rest a.1 f.1
          o.1)

-- What a normalized plan promises its readers.
pub record IsNormalizedPlan (platform : Platform) (plan : NormalizedPlan) : Type 0 where
  pub header : IsHeader plan
  pub ordered : AllPairs Before (paths plan.assets)
  pub distinct : Distinct (operation_ids plan.assets)
  pub assets : All (IsAsset platform plan.schema_version) plan.assets
  pub asset_count : plan.summary.assets ≡ length plan.assets
  pub sidecars : plan.summary.sidecars ≡ sidecar_count plan.assets
  pub warnings : windows_all diagnostic_le plan.warnings ≡ true
  pub errors : windows_all diagnostic_le plan.errors ≡ true

validate_sound :
    (platform : Platform) (plan : NormalizedPlan)
    → validate platform plan ≡ ok tt
    → IsNormalizedPlan platform plan
unfolding validate check_summary
validate_sound platform plan h =
    let (_, first, second) = >>=-eq-ok (check_schema plan) _ h in
    let (_, scanned, last) =
      >>=-eq-ok (scan_assets platform plan.schema_version none [] plan.assets) _ second in
    let (a, f, o) = scan_assets_sound platform plan.schema_version none [] plan.assets scanned in
    record {
      header = check_schema_sound plan first;
      ordered = (Ascends-iff (paths plan.assets)).0 a;
      distinct = (Fresh-iff (operation_ids plan.assets)).0 f;
      assets = o;
      asset_count = ground arith;
      sidecars = ground arith;
      warnings = ground arith;
      errors = ground arith;
    }

validate_complete :
    (platform : Platform) (plan : NormalizedPlan)
    → IsNormalizedPlan platform plan
    → validate platform plan ≡ ok tt
unfolding validate check_summary
validate_complete platform plan v =
    let header : check_schema plan ≡ ok tt = check_schema_complete plan v.header in
    let scanned : scan_assets platform plan.schema_version none [] plan.assets ≡ ok tt =
      scan_assets_complete platform plan.schema_version none [] plan.assets
        ((Ascends-iff (paths plan.assets)).1 v.ordered)
        ((Fresh-iff (operation_ids plan.assets)).1 v.distinct) v.assets in
    rw (header, scanned) (ground arith)

-- A normalized plan is accepted exactly when it satisfies `IsNormalizedPlan`: its schema fits its
-- source, its paths are in strict order, its operation IDs are distinct, every asset is well formed
-- and the summary agrees with the assets and the diagnostics.
pub normalized_plan_iff :
    (platform : Platform) (plan : NormalizedPlan)
    → (validate platform plan ≡ ok tt) ↔ IsNormalizedPlan platform plan
normalized_plan_iff platform plan = (validate_sound platform plan, validate_complete platform plan)
