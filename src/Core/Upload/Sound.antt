-- ===== src/Core/Upload/Sound.antt =====
-- upload.rs, `UploadPlan::validate`: what an accepted upload plan satisfies, and that nothing else
-- is required.
use immich_rs.Core.Roles.{check_roles_iff, RoleMet}
use immich_rs.Common.{
  ap, refl, some, Fresh, Ascends, Distinct, Fresh-iff, Before, map, >>=-eq-ok, Ascends-iff,
  AllPairs, ◌↔◌, inr, is_some, contains, false, none-any, any-none, not_after, arith, inl, none,
  ◌∷◌, AllSome, All, ok, ◌<◌, [], ◌⊎◌, true, List, ◌≡◌, Option, ◌≢◌, ℕ, Text,
}
use immich_rs.Core.Platform.{Platform}
use immich_rs.Common.Map
use immich_rs.Common.Map.{keys_of, insert_all, Map}
use immich_rs.Core.Planning.{kind_eq, SourceKind, folder}
use immich_rs.Core.Upload.{
  invalid_live_photo_dependency, expected_summary, UploadRole, UploadPlanSummary,
  validate_dependencies, summary_eq, scan_operations, metadata_is_valid, validate_operation,
  check_header, UploadPlan, UploadOperation, UploadSidecar, is_sha256, validate,
}

abbrev pub SchemaSource : ℕ → SourceKind → Type 0
SchemaSource version kind = ((version ≡ 1) × (kind ≡ folder)) ⊎ ((version ≡ 2) × (kind ≢ folder))

pub record IsHeader (plan : UploadPlan) : Type 0 where
  pub schema_source : SchemaSource plan.schema_version plan.source.kind
  pub normalized_plan : is_sha256 plan.normalized_plan_sha256 ≡ true
  pub configuration : is_sha256 plan.configuration_sha256 ≡ true
  pub fingerprint : is_sha256 plan.source.fingerprint_sha256 ≡ true
  pub identity : is_sha256 plan.server.identity_sha256 ≡ true
  pub first_schema :
      plan.schema_version ≡ 1
      → All (λ (op : UploadOperation). op.normalized_metadata ≡ none) plan.operations

pub record IsSidecar (sidecar : UploadSidecar) : Type 0 where
  pub path : sidecar.relative_path ≢ []
  pub nonempty : 0 < sidecar.byte_len
  pub digest : is_sha256 sidecar.content_sha256 ≡ true

pub record IsOperation (platform : Platform) (op : UploadOperation) : Type 0 where
  pub path : op.relative_path ≢ []
  pub identity : is_sha256 op.operation_id ≡ true
  pub digest : is_sha256 op.content_sha256 ≡ true
  pub nonempty : 0 < op.byte_len
  pub sidecar : AllSome IsSidecar op.xmp_sidecar
  pub metadata : AllSome (λ m. metadata_is_valid platform m ≡ true) op.normalized_metadata

check_header_sound : (plan : UploadPlan) → check_header plan ≡ ok tt → IsHeader plan
unfolding check_header kind_eq
check_header_sound plan h = record {
  schema_source = ground arith;
  normalized_plan = ground arith;
  configuration = ground arith;
  fingerprint = ground arith;
  identity = ground arith;
  first_schema = λ e.
      any-none (λ (op : UploadOperation). is_some op.normalized_metadata) _ plan.operations
        (λ x p. ground arith) (ground arith);
}

check_header_complete : (plan : UploadPlan) → IsHeader plan → check_header plan ≡ ok tt
unfolding check_header kind_eq
check_header_complete plan v = elim v.schema_source [
  | inl first ↦ ground (
    arith,
    none-any (λ (op : UploadOperation). is_some op.normalized_metadata)
        (λ (op : UploadOperation). op.normalized_metadata ≡ none) plan.operations
        (λ x p. ground arith) (v.first_schema first.0),
  )
  | inr second ↦ ground arith
]

module _ (platform : Platform) (previous : Option Text) (seen : List Text) where
  validate_operation_sound :
      (op : UploadOperation) {r : List Text}
      → validate_operation platform op previous seen ≡ ok r
      → (r ≡ op.operation_id ∷ seen)
        × (not_after previous op.relative_path ≡ false)
        × (contains op.operation_id seen ≡ false)
        × IsOperation platform op
  unfolding validate_operation
  validate_operation_sound op h = (
    ground arith,
    ground arith,
    ground arith,
    record {
      path = ground arith;
      identity = ground arith;
      digest = ground arith;
      nonempty = ground arith;
      sidecar = ground arith;
      metadata = ground arith;
    },
  )

  validate_operation_complete :
      (op : UploadOperation)
      → not_after previous op.relative_path ≡ false
      → contains op.operation_id seen ≡ false
      → IsOperation platform op
      → validate_operation platform op previous seen ≡ ok (op.operation_id ∷ seen)
  unfolding validate_operation
  validate_operation_complete op sorted fresh v = ground arith

abbrev pub ids_of : List UploadOperation → List Text
ids_of operations = map (λ (op : UploadOperation). op.operation_id) operations

abbrev pub roles_of : List UploadOperation → List UploadRole
roles_of operations = map (λ (op : UploadOperation). op.role) operations

-- The operation's identifier with its role, as the validator records them.
abbrev pub entries_of : List UploadOperation → List (Text × UploadRole)
entries_of operations = map (λ (op : UploadOperation). (op.operation_id, op.role)) operations

keys-entries : (ops : List UploadOperation) → keys_of (entries_of ops) ≡ ids_of ops
keys-entries [] = refl
keys-entries (op ∷ rest) = ap (λ (t : List Text). op.operation_id ∷ t) (keys-entries rest)

abbrev pub paths_of : List UploadOperation → List Text
paths_of operations = map (λ (op : UploadOperation). op.relative_path) operations

module _ (platform : Platform) where
  scan_operations_sound :
      (previous : Option Text) (seen : List Text) (m : Map UploadRole) (ops : List UploadOperation)
      {r : Map UploadRole}
      → scan_operations platform previous seen m ops ≡ ok r
      → (r ≡ insert_all (entries_of ops) m)
        × Ascends previous (paths_of ops)
        × Fresh seen (ids_of ops)
        × All (IsOperation platform) ops
  unfolding scan_operations insert_all
  scan_operations_sound previous seen m [] h = (ground arith, tt, tt, tt)
  scan_operations_sound previous seen m (op ∷ rest) h =
      let (ids, step, later) = >>=-eq-ok (validate_operation platform op previous seen) _ h in
      let (e, sorted, fresh, good) = validate_operation_sound platform previous seen op step in
      let (same, a, f, o) =
        scan_operations_sound (some op.relative_path) ids (Map.insert op.operation_id op.role m)
          rest later in
      (same, (sorted, a), (fresh, rw e at f), (good, o))

  scan_operations_complete :
      (previous : Option Text) (seen : List Text) (m : Map UploadRole) (ops : List UploadOperation)
      → Ascends previous (paths_of ops)
      → Fresh seen (ids_of ops)
      → All (IsOperation platform) ops
      → scan_operations platform previous seen m ops ≡ ok (insert_all (entries_of ops) m)
  unfolding scan_operations insert_all
  scan_operations_complete previous seen m [] a f o = refl
  scan_operations_complete previous seen m (op ∷ rest) a f o =
      rw (validate_operation_complete platform previous seen op a.0 f.0 o.0) (
        scan_operations_complete (some op.relative_path) (op.operation_id ∷ seen)
          (Map.insert op.operation_id op.role m) rest a.1 f.1 o.1)

pub summary_eq_iff : (a b : UploadPlanSummary) → (summary_eq a b ≡ true) ↔ (a ≡ b)
unfolding summary_eq
summary_eq_iff a b = (λ h. ground arith, λ h. ground arith)

-- What an immutable upload plan promises to the code that applies it.
pub record IsUploadPlan (platform : Platform) (plan : UploadPlan) : Type 0 where
  pub header : IsHeader plan
  pub ordered : AllPairs Before (paths_of plan.operations)
  pub distinct : Distinct (ids_of plan.operations)
  pub operations : All (IsOperation platform) plan.operations
  pub live_photos : All (RoleMet (entries_of plan.operations)) (roles_of plan.operations)
  pub summary : expected_summary plan.schema_version plan.operations ≡ plan.summary

dependencies_iff :
    (ops : List UploadOperation)
    → Distinct (ids_of ops)
    → (validate_dependencies ops (insert_all (entries_of ops) []) ≡ ok tt)
      ↔ All (RoleMet (entries_of ops)) (roles_of ops)
unfolding validate_dependencies
dependencies_iff ops d =
    check_roles_iff invalid_live_photo_dependency (entries_of ops) (roles_of ops)
      (rw (keys-entries ops) d)

validate_sound :
    (platform : Platform) (plan : UploadPlan)
    → validate platform plan ≡ ok tt
    → IsUploadPlan platform plan
unfolding validate
validate_sound platform plan h =
    let (_, first, second) = >>=-eq-ok (check_header plan) _ h in
    let (roles, scanned, third) =
      >>=-eq-ok (scan_operations platform none [] [] plan.operations) _ second in
    let (same, a, f, o) = scan_operations_sound platform none [] [] plan.operations scanned in
    let (_, met, last) = >>=-eq-ok (validate_dependencies plan.operations roles) _ third in
    let distinct = (Fresh-iff (ids_of plan.operations)).0 f in
    record {
      header = check_header_sound plan first;
      ordered = (Ascends-iff (paths_of plan.operations)).0 a;
      distinct = distinct;
      operations = o;
      live_photos = (dependencies_iff plan.operations distinct).0 (rw same at met);
      summary =
          (summary_eq_iff (expected_summary plan.schema_version plan.operations) plan.summary).0
            (ground arith);
    }

validate_complete :
    (platform : Platform) (plan : UploadPlan)
    → IsUploadPlan platform plan
    → validate platform plan ≡ ok tt
unfolding validate
validate_complete platform plan v = rw (
  check_header_complete plan v.header,
  scan_operations_complete platform none [] [] plan.operations
      ((Ascends-iff (paths_of plan.operations)).1 v.ordered)
      ((Fresh-iff (ids_of plan.operations)).1 v.distinct) v.operations,
  (dependencies_iff plan.operations v.distinct).1 v.live_photos,
  (summary_eq_iff (expected_summary plan.schema_version plan.operations) plan.summary).1 v.summary,
)

-- An upload plan is accepted exactly when it satisfies `IsUploadPlan`: digests and source adapter
-- fit the schema, paths are in strict order, operation IDs are distinct, every operation is well
-- formed, every live-photo image names its own pair's video in the plan, and the counters are those
-- that the operations have.
pub upload_plan_iff :
    (platform : Platform) (plan : UploadPlan)
    → (validate platform plan ≡ ok tt) ↔ IsUploadPlan platform plan
upload_plan_iff platform plan = (validate_sound platform plan, validate_complete platform plan)
